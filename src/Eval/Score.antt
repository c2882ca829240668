-- ===== src/Eval/Score.antt =====
-- app/eval/text.py: the error rates of a text against a reference, as fractions, and their sum over
-- a corpus. A string is the list of its code points. Which of them str.split takes for white space
-- is a parameter, as the tables of unicodedata are.
pub mod Exact
pub mod Merge
pub mod Words
use ocr_orchestrator.Common.{
  ℕ, ◌+◌, Bool, true, false, ◌&&◌, Option, none, some, List, [], ◌∷◌, ◌++◌, ◌==◌, if◌then◌else◌,
  length, map, ◌≡◌, ◌↔◌, ◌>>=◌, arith,
}
use ocr_orchestrator.Eval.Text.{Units, levenshtein}
use ocr_orchestrator.Eval.Graphemes.{Unicode, graphemes}

-- The names of units that a score can carry; `no_unit` is "empty".
pub data UnitName : Type 0 where
  grapheme codepoint word no_unit : UnitName

abbrev pub unit_eq : UnitName → UnitName → Bool
unit_eq grapheme grapheme = true
unit_eq codepoint codepoint = true
unit_eq word word = true
unit_eq no_unit no_unit = true
unit_eq _ _ = false

-- Strings as units.
abbrev pub same_text : List ℕ → List ℕ → Bool
same_text [] [] = true
same_text (x ∷ xs) (y ∷ ys) = x == y && same_text xs ys
same_text _ _ = false

pub same_text_iff : (xs ys : List ℕ) → (same_text xs ys ≡ true) ↔ (xs ≡ ys)
same_text_iff [] [] = ground arith
same_text_iff [] (y ∷ ys) = ground arith
same_text_iff (x ∷ xs) [] = ground arith
same_text_iff (x ∷ xs) (y ∷ ys) = ground (arith, same_text_iff xs ys)

abbrev pub strings : Units (List ℕ)
strings = record { same = same_text; same_iff = same_text_iff }

-- `words`: the maximal runs without white space. `word` is the run under way.
abbrev flush : List ℕ → List (List ℕ)
flush [] = []
flush (c ∷ cs) = (c ∷ cs) ∷ []

split : (ℕ → Bool) → List ℕ → (run : List ℕ) → List (List ℕ)
split space [] run = flush run
split space (c ∷ text) run =
    let closed = flush run ++ split space text [] in
    let longer = split space text (run ++ (c ∷ [])) in if space c then closed else longer

unfoldable pub words : (ℕ → Bool) → List ℕ → List (List ℕ)
unfolding split
words space text = split space text []

-- `_units`; `none` is the ValueError for another name.
unfoldable pub units : Unicode → UnitName → List ℕ → Option (List (List ℕ))
units u grapheme text = some (graphemes u text)
units u codepoint text = some (map (λ c. c ∷ []) text)
units u word text = none
units u no_unit text = none

pub record TextScore : Type 0 where
  pub errors : ℕ
  pub length : ℕ
  pub unit : UnitName

pub data Rate : Type 0 where
  infinite : Rate
  ratio : (errors length : ℕ) → Rate

-- `TextScore.rate`
abbrev pub rate : TextScore → Rate
rate s =
    if s.length == 0
    then (if s.errors == 0 then ratio 0 1 else infinite)
    else ratio s.errors s.length

-- `cer_score`
unfoldable pub cer_score : Unicode → UnitName → (reference hypothesis : List ℕ) → Option TextScore
cer_score u unit reference hypothesis = do
  ref_units ← units u unit reference
  hyp_units ← units u unit hypothesis
  distance ← levenshtein strings ref_units hyp_units
  some (record { errors = distance; length = length ref_units; unit = unit })

-- `wer_score`
unfoldable pub wer_score : (ℕ → Bool) → (reference hypothesis : List ℕ) → Option TextScore
wer_score space reference hypothesis = do
  let ref_words = words space reference
  distance ← levenshtein strings ref_words (words space hypothesis)
  some (record { errors = distance; length = length ref_words; unit = word })

abbrev pub errors_in : List TextScore → ℕ
errors_in [] = 0
errors_in (s ∷ scores) = s.errors + errors_in scores

abbrev pub length_in : List TextScore → ℕ
length_in [] = 0
length_in (s ∷ scores) = s.length + length_in scores

-- The set of the units has no other member.
abbrev pub all_unit : UnitName → List TextScore → Bool
all_unit n [] = true
all_unit n (s ∷ scores) = unit_eq n s.unit && all_unit n scores

-- `aggregate`; `none` is the ValueError for mixed units.
abbrev pub aggregate : List TextScore → Option TextScore
aggregate [] = some (record { errors = 0; length = 0; unit = no_unit })
aggregate (s ∷ scores) =
    if all_unit s.unit (s ∷ scores)
    then some
        (record { errors = errors_in (s ∷ scores); length = length_in (s ∷ scores); unit = s.unit })
    else none

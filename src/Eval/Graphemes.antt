-- ===== src/Eval/Graphemes.antt =====
-- app/eval/text.py: the split of a text into grapheme clusters. A text is the list of its code
-- points. The tables of unicodedata are a parameter.
pub mod Split
use ocr_orchestrator.Common.{
  ℕ, Bool, true, false, ◌&&◌, ◌||◌, not, List, [], ◌∷◌, ◌++◌, ◌==◌, if◌then◌else◌,
}

-- `unicodedata.combining`, and whether `unicodedata.category` is one of Mn, Mc and Me.
pub record Unicode : Type 0 where
  pub combining : ℕ → ℕ
  pub is_mark : ℕ → Bool

-- `_ZWJ` and `_ZWNJ`
abbrev pub zwj : ℕ
zwj = 0x200d

abbrev pub zwnj : ℕ
zwnj = 0x200c

-- `_joins_following`, with 9 for the combining class of a virama.
abbrev pub joins_following : Unicode → ℕ → Bool
joins_following u ch = ch == zwj || u.combining ch == 9

abbrev is_empty_list {ℓ} : {A : Type ℓ} → List A → Bool
is_empty_list [] = true
is_empty_list (x ∷ xs) = false

-- `extend`: a code point goes to the cluster before it, if there is one.
abbrev pub extends : Unicode → List (List ℕ) → (join_next : Bool) → ℕ → Bool
extends u clusters join_next ch =
    not (is_empty_list clusters) && (join_next || ((ch == zwj || ch == zwnj) || u.is_mark ch))

-- `clusters[-1] += ch`
abbrev pub extend_last : List (List ℕ) → ℕ → List (List ℕ)
extend_last [] ch = []
extend_last (c ∷ []) ch = (c ++ (ch ∷ [])) ∷ []
extend_last (c ∷ d ∷ cs) ch = c ∷ extend_last (d ∷ cs) ch

-- The loop, from the clusters so far on.
pub grow : Unicode → List ℕ → List (List ℕ) → (join_next : Bool) → List (List ℕ)
grow u [] clusters join_next = clusters
grow u (ch ∷ text) clusters join_next =
    let more =
      if extends u clusters join_next ch
      then extend_last clusters ch
      else clusters ++ ((ch ∷ []) ∷ []) in
    grow u text more (joins_following u ch)

-- `graphemes`
unfoldable pub graphemes : Unicode → List ℕ → List (List ℕ)
unfolding grow
graphemes u text = grow u text [] false

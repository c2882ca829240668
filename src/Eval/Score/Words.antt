-- ===== src/Eval/Score/Words.antt =====
-- What `words` keeps of a text.
use mathlib.Core.List.{flatten, append-nil, append_assoc}
use ocr_orchestrator.Common.{
  ℕ, ◌<◌, ◌≡◌, refl, sym, ap, ◌∙◌, inl, inr, Bool, true, false, List, [], ◌∷◌, ◌++◌, arith, length,
  if◌then◌else◌, All, Bool-cases,
}
use ocr_orchestrator.Eval.Score.{flush, split, words}

-- The text without its white space.
abbrev pub letters : (ℕ → Bool) → List ℕ → List ℕ
letters space [] = []
letters space (c ∷ text) = if space c then letters space text else c ∷ letters space text

abbrev pub IsSolid : (ℕ → Bool) → List ℕ → Type 0
IsSolid space w = All (λ c. space c ≡ false) w

abbrev pub IsWord : (ℕ → Bool) → List ℕ → Type 0
IsWord space w = (0 < length w) × IsSolid space w

flatten-flush : (run : List ℕ) (ws : List (List ℕ)) → flatten (flush run ++ ws) ≡ run ++ flatten ws
unfolding flatten
flatten-flush [] ws = refl
flatten-flush (c ∷ run) ws = refl

flatten-split :
    (space : ℕ → Bool) (text run : List ℕ)
    → flatten (split space text run) ≡ run ++ letters space text
unfolding split flatten
flatten-split space [] run = ap flatten (sym (append-nil (flush run))) ∙ flatten-flush run []
flatten-split space (c ∷ text) run = elim (Bool-cases (space c)) [
  | inl blank ↦
      rw blank
        (flatten-flush run (split space text []) ∙ ap (λ r. run ++ r) (flatten-split space text []))
  | inr solid ↦
      rw solid (
        flatten-split space text (run ++ (c ∷ [])) ∙ append_assoc run (c ∷ []) (letters space text))
]

flush-IsWord :
    (space : ℕ → Bool) (run : List ℕ) (ws : List (List ℕ))
    → IsSolid space run
    → All (IsWord space) ws
    → All (IsWord space) (flush run ++ ws)
flush-IsWord space [] ws h k = k
flush-IsWord space (c ∷ run) ws h k = ((omega arith, h), k)

append-IsSolid :
    (space : ℕ → Bool) (run : List ℕ) (c : ℕ)
    → IsSolid space run
    → space c ≡ false
    → IsSolid space (run ++ (c ∷ []))
append-IsSolid space [] c h e = (e, tt)
append-IsSolid space (x ∷ run) c h e = (h.0, append-IsSolid space run c h.1 e)

split-IsWord :
    (space : ℕ → Bool) (text run : List ℕ)
    → IsSolid space run
    → All (IsWord space) (split space text run)
unfolding split
split-IsWord space [] [] h = tt
split-IsWord space [] (c ∷ run) h = ((omega arith, h), tt)
split-IsWord space (c ∷ text) run h = elim (Bool-cases (space c)) [
  | inl blank ↦
      rw blank (flush-IsWord space run (split space text []) h (split-IsWord space text [] tt))
  | inr solid ↦
      rw solid (split-IsWord space text (run ++ (c ∷ [])) (append-IsSolid space run c h solid))
]

-- The words of a text make it up but for its white space; none is empty, and none has white space.
pub words-flatten :
    (space : ℕ → Bool) (text : List ℕ)
    → (flatten (words space text) ≡ letters space text) × All (IsWord space) (words space text)
unfolding words
words-flatten space text = (flatten-split space text [], split-IsWord space text [] tt)

split-append :
    (space : ℕ → Bool) (text : List ℕ) (c : ℕ) (more run : List ℕ)
    → space c ≡ true
    → split space (text ++ (c ∷ more)) run ≡ split space text run ++ split space more []
unfolding split
split-append space [] c more run e = rw e refl
split-append space (x ∷ text) c more run e = elim (Bool-cases (space x)) [
  | inl blank ↦ rw blank (
      ap (λ r. flush run ++ r) (split-append space text c more [] e)
      ∙ sym (append_assoc (flush run) (split space text []) (split space more [])))
  | inr solid ↦ rw solid (split-append space text c more (run ++ (x ∷ [])) e)
]

split_solid :
    (space : ℕ → Bool) (text run : List ℕ)
    → IsSolid space text
    → split space text run ≡ flush (run ++ text)
unfolding split
split_solid space [] run h = ap flush (sym (append-nil run))
split_solid space (c ∷ text) run h =
    rw h.0
      (split_solid space text (run ++ (c ∷ [])) h.1 ∙ ap flush (append_assoc run (c ∷ []) text))

flush_word : (w : List ℕ) → 0 < length w → flush w ≡ w ∷ []
flush_word [] h = ground arith
flush_word (c ∷ w) h = refl

-- White space cuts a text: the words before it and the words behind it, wherever it stands, are the
-- words of the text. A text without white space, unless it is empty, is one word.
pub words-append :
    (space : ℕ → Bool)
    → ((text : List ℕ) (c : ℕ) (more : List ℕ)
        → space c ≡ true
        → words space (text ++ (c ∷ more)) ≡ words space text ++ words space more)
      × ((w : List ℕ) → IsWord space w → words space w ≡ w ∷ [])
unfolding words
words-append space = (
  (λ text c more e. split-append space text c more [] e),
  λ w h. split_solid space w [] h.1 ∙ flush_word w h.0,
)

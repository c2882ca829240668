-- ===== src/Eval/Text.antt =====
-- app/eval/text.py: the edit distance, over any units. Units are compared by `==`, of a type with
-- decidable equality.
pub mod Edit
pub mod Rows
use ocr_orchestrator.Common.{
  ℕ, zero, suc, ◌+◌, min, Bool, true, false, ◌&&◌, ◌||◌, Option, none, some, List, [], ◌∷◌, ◌++◌,
  ltb, ◌==◌, if◌then◌else◌, length, ◌≡◌, ◌↔◌, ◌>>=◌,
}

-- Equality of units, as Python's `==` on them.
pub record Units {ℓ} (A : Type ℓ) : Type ℓ where
  pub same : A → A → Bool
  pub same_iff : (a b : A) → (same a b ≡ true) ↔ (a ≡ b)

-- `list(range(…))`
pub range_from : ℕ → ℕ → List ℕ
range_from zero i = []
range_from (suc n) i = i ∷ range_from n (suc i)

-- `previous[-1]`
pub last : List ℕ → Option ℕ
last [] = none
last (x ∷ []) = some x
last (x ∷ y ∷ xs) = last (y ∷ xs)

module _ {ℓ} {A : Type ℓ} (u : Units A) where
  -- `ref_unit != hyp_unit`, as a number.
  abbrev pub differs : A → A → ℕ
  differs a b = if u.same a b then 0 else 1

  -- The inner loop: `diagonal` is `previous[j - 1]`, `above` are `previous[j:]`, and `left` is
  -- `current[j - 1]`. `none` is an IndexError.
  pub fill_row : A → List A → (diagonal : ℕ) → (above : List ℕ) → (left : ℕ) → Option (List ℕ)
  fill_row a [] diagonal above left = some []
  fill_row a (b ∷ hyp) diagonal [] left = none
  fill_row a (b ∷ hyp) diagonal (up ∷ above) left = do
    let cell = min (min (up + 1) (left + 1)) (diagonal + differs a b)
    rest ← fill_row a hyp up above cell
    some (cell ∷ rest)

  -- One round of the outer loop.
  pub next_row : A → List A → ℕ → List ℕ → Option (List ℕ)
  unfolding fill_row
  next_row a hyp i [] = none
  next_row a hyp i (corner ∷ above) = do rest ← fill_row a hyp corner above i; some (i ∷ rest)

  pub fill_rows : List A → List A → ℕ → List ℕ → Option (List ℕ)
  unfolding next_row
  fill_rows [] hyp i previous = some previous
  fill_rows (a ∷ ref) hyp i previous = next_row a hyp i previous >>= fill_rows ref hyp (suc i)

  by_rows : List A → List A → Option ℕ
  unfolding fill_rows range_from last
  by_rows ref [] = some (length ref)
  by_rows ref (b ∷ hyp) = fill_rows ref (b ∷ hyp) 1 (range_from (length (b ∷ hyp) + 1) 0) >>= last

  -- `levenshtein`, the shorter side inside.
  unfoldable pub levenshtein : List A → List A → Option ℕ
  unfolding by_rows
  levenshtein ref hyp = if ltb (length ref) (length hyp) then by_rows hyp ref else by_rows ref hyp

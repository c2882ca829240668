-- ===== src/Eval/Text/Rows.antt =====
-- The rows of `levenshtein` hold the recurrence.
use native.Mathlib.Numerals.{add-one}
use mathlib.Core.List.{reverse, reverse-cons, reverse-reverse, append_assoc, append-nil}
use ocr_orchestrator.Common.{
  ℕ, suc, ◌+◌, ◌≡◌, refl, sym, ap, ◌∙◌, some, List, [], ◌∷◌, ◌++◌, arith, length, length-reverse,
  ◌>>=◌, Bool-cases, inl, inr, ltb, ◌≤◌,
}
use ocr_orchestrator.Eval.Text.{
  Units, fill_row, next_row, fill_rows, range_from, last, by_rows, levenshtein,
}
use ocr_orchestrator.Eval.Text.Edit.{
  Edit, cost, least, least-nil, least-le-cost, least_attained, backwards, undo, moved,
}

module _ {ℓ} {A : Type ℓ} (u : Units A) where
  -- The row behind the reversed prefix `p` of the reference, from the reversed prefix `q` of the
  -- hypothesis on.
  row : List A → List A → List A → List ℕ
  row p q [] = []
  row p q (b ∷ hyp) = least u p (b ∷ q) ∷ row p (b ∷ q) hyp

  fill_row-row :
      (a : A) (p q hyp : List A)
      → fill_row u a hyp (least u p q) (row p q hyp) (least u (a ∷ p) q) ≡ some (row (a ∷ p) q hyp)
  unfolding fill_row row least
  fill_row-row a p q [] = refl
  fill_row-row a p q (b ∷ hyp) = rw (fill_row-row a p (b ∷ q) hyp) refl

  abbrev full_row : List A → List A → List ℕ
  full_row p hyp = least u p [] ∷ row p [] hyp

  next_row-row :
      (a : A) (p hyp : List A)
      → next_row u a hyp (suc (length p)) (full_row p hyp) ≡ some (full_row (a ∷ p) hyp)
  unfolding next_row least
  next_row-row a p hyp = rw (fill_row-row a p [] hyp) refl

  fill_rows-row :
      (ref p hyp : List A)
      → fill_rows u ref hyp (suc (length p)) (full_row p hyp)
        ≡ some (full_row (reverse ref ++ p) hyp)
  unfolding fill_rows
  fill_rows-row [] p hyp = refl
  fill_rows-row (a ∷ ref) p hyp =
      rw (next_row-row a p hyp, reverse-cons a ref, append_assoc) (fill_rows-row ref (a ∷ p) hyp)

  first_row : (q hyp : List A) → row [] q hyp ≡ range_from (length hyp) (suc (length q))
  unfolding row range_from least
  first_row q [] = refl
  first_row q (b ∷ hyp) = rw (first_row (b ∷ q) hyp) refl

  top_row : (hyp : List A) → range_from (length hyp + 1) 0 ≡ full_row [] hyp
  unfolding range_from least
  top_row hyp = rw (add-one, first_row [] hyp) refl

  last-row :
      (p q hyp : List A) → last (least u p q ∷ row p q hyp) ≡ some (least u p (reverse hyp ++ q))
  unfolding last row
  last-row p q [] = refl
  last-row p q (b ∷ hyp) = rw (reverse-cons b hyp, append_assoc) (last-row p (b ∷ q) hyp)

  by_rows-least :
      (ref hyp : List A) → by_rows u ref hyp ≡ some (least u (reverse ref) (reverse hyp))
  unfolding by_rows
  by_rows-least ref [] = ap some (sym (least-nil u (reverse ref) ∙ length-reverse ref))
  by_rows-least ref (b ∷ hyp) =
      ap (λ r. fill_rows u ref (b ∷ hyp) 1 r >>= last) (top_row (b ∷ hyp))
      ∙ ap (λ o. o >>= last) (fill_rows-row ref [] (b ∷ hyp))
      ∙ last-row (reverse ref ++ []) [] (b ∷ hyp)
      ∙ simp append-nil

  -- A cheapest edit costs `d`.
  abbrev pub Cheapest : List A → List A → ℕ → Type ℓ
  Cheapest ref hyp d =
      ((e : Edit u ref hyp) × (cost u e ≡ d)) × ((e : Edit u ref hyp) → d ≤ cost u e)

  least-Cheapest : (ref hyp : List A) → Cheapest ref hyp (least u (reverse ref) (reverse hyp))
  least-Cheapest ref hyp =
      let (e, p) = least_attained u (reverse ref) (reverse hyp) in
      let (f, q) = backwards u e in
      let back = moved u (reverse-reverse ref) (reverse-reverse hyp) f (q ∙ p) in
      (back, λ g. let (h, r) = backwards u g in omega (arith, least-le-cost u h, r))

  Cheapest-flip : (ref hyp : List A) (d : ℕ) → Cheapest hyp ref d → Cheapest ref hyp d
  Cheapest-flip ref hyp d c =
      let (e, p) = c.0 in
      let (f, q) = undo u e in ((f, q ∙ p), λ g. let (h, r) = undo u g in omega (arith, c.1 h, r))

  -- The rows never run out of their bounds, and end in the cost of a cheapest edit: there is an
  -- edit of the reference to the hypothesis of that cost, and none of a smaller cost.
  pub levenshtein-least :
      (ref hyp : List A) → (d : ℕ) × (levenshtein u ref hyp ≡ some d) × Cheapest ref hyp d
  unfolding levenshtein
  levenshtein-least ref hyp = elim (Bool-cases (ltb (length ref) (length hyp))) [
    | inl shorter ↦ (
      least u (reverse hyp) (reverse ref),
      rw shorter (by_rows-least hyp ref),
      Cheapest-flip ref hyp _ (least-Cheapest hyp ref),
    )
    | inr longer ↦ (
      least u (reverse ref) (reverse hyp),
      rw longer (by_rows-least ref hyp),
      least-Cheapest ref hyp,
    )
  ]

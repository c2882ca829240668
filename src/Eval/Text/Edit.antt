-- ===== src/Eval/Text/Edit.antt =====
-- What an edit from one sequence to another is, and the least cost of one.
use ocr_orchestrator.Common.{
  ℕ, suc, ◌+◌, ◌≤◌, min, ◌≡◌, refl, sym, List, [], ◌∷◌, ◌++◌, arith, length,
}
use mathlib.Core.List.{reverse, reverse-cons, append-nil}
use mathlib.Core.Path.{subst₂}
use native.Mathlib.Decide.{dec_le}
use ocr_orchestrator.Eval.Text.{Units, differs}

differs_comm {ℓ} : {A : Type ℓ} (u : Units A) (a b : A) → differs u a b ≡ differs u b a
differs_comm u a b = ground (arith, u.same_iff a b, u.same_iff b a)

module _ {ℓ} {A : Type ℓ} (u : Units A) where
  -- Insertions, deletions and substitutions, one at a time from left to right, and what they cost.
  pub data Edit : List A → List A → Type ℓ where
    done : Edit [] []
    delete : {xs ys : List A} (x : A) → Edit xs ys → Edit (x ∷ xs) ys
    insert : {xs ys : List A} (y : A) → Edit xs ys → Edit xs (y ∷ ys)
    substitute : {xs ys : List A} (x y : A) → Edit xs ys → Edit (x ∷ xs) (y ∷ ys)

  -- A substitution of a unit by itself is free.
  unfoldable pub cost : {xs ys : List A} → Edit xs ys → ℕ
  cost done = 0
  cost (delete x e) = cost e + 1
  cost (insert y e) = cost e + 1
  cost (substitute x y e) = cost e + differs u x y

  -- The recurrence, on the sequences from their far ends.
  unfoldable pub least : List A → List A → ℕ
  least [] ys = length ys
  least (x ∷ xs) [] = suc (length xs)
  least (x ∷ xs) (y ∷ ys) =
      min (min (least xs (y ∷ ys) + 1) (least (x ∷ xs) ys + 1)) (least xs ys + differs u x y)

  pub least-nil : (xs : List A) → least xs [] ≡ length xs
  unfolding least
  least-nil [] = refl
  least-nil (x ∷ xs) = refl

  -- No edit costs less.
  pub least-le-cost : {xs ys : List A} (e : Edit xs ys) → least xs ys ≤ cost e
  unfolding least cost
  least-le-cost done = omega arith
  least-le-cost (delete {xs} {ys = []} x e) = omega (arith, least-le-cost e, least-nil xs)
  least-le-cost (delete {ys = y ∷ ys} x e) = omega (arith, least-le-cost e)
  least-le-cost (insert {xs = []} y e) = omega (arith, least-le-cost e)
  least-le-cost (insert {xs = x ∷ xs} y e) = omega (arith, least-le-cost e)
  least-le-cost (substitute x y e) = omega (arith, least-le-cost e)

  cheaper :
      {xs ys : List A} (e f : Edit xs ys) → (g : Edit xs ys) × (cost g ≡ min (cost e) (cost f))
  cheaper e f = elim (dec_le (cost e) (cost f)) [
    | yes h ↦ (e, omega arith)
    | no h ↦ (f, omega arith)
  ]

  pub moved :
      {xs ys vs ws : List A} {k : ℕ}
      → xs ≡ vs
      → ys ≡ ws
      → (e : Edit xs ys) → cost e ≡ k
      → (f : Edit vs ws) × (cost f ≡ k)
  moved {k} p q e h = subst₂ (λ vs ws. (f : Edit vs ws) × (cost f ≡ k)) p q (e, h)

  -- And one costs as much.
  pub least_attained : (xs ys : List A) → (e : Edit xs ys) × (cost e ≡ least xs ys)
  unfolding least cost
  least_attained [] [] = (done, refl)
  least_attained [] (y ∷ ys) = let (e, p) = least_attained [] ys in (insert y e, omega arith)
  least_attained (x ∷ xs) [] =
      let (e, p) = least_attained xs [] in (delete x e, omega (arith, least-nil xs))
  least_attained (x ∷ xs) (y ∷ ys) =
      let (d, dp) = least_attained xs (y ∷ ys) in
      let (i, ip) = least_attained (x ∷ xs) ys in
      let (s, sp) = least_attained xs ys in
      let (e, ep) = cheaper (delete x d) (insert y i) in
      let (f, fp) = cheaper e (substitute x y s) in (f, omega (arith, fp, ep, dp, ip, sp))

  -- Edits of two parts, one after the other.
  join : {xs ys vs ws : List A} → Edit xs ys → Edit vs ws → Edit (xs ++ vs) (ys ++ ws)
  join done f = f
  join (delete x e) f = delete x (join e f)
  join (insert y e) f = insert y (join e f)
  join (substitute x y e) f = substitute x y (join e f)

  cost-join :
      {xs ys vs ws : List A} (e : Edit xs ys) (f : Edit vs ws) → cost (join e f) ≡ cost e + cost f
  unfolding cost join
  cost-join done f = omega arith
  cost-join (delete x e) f = omega (arith, cost-join e f)
  cost-join (insert y e) f = omega (arith, cost-join e f)
  cost-join (substitute x y e) f = omega (arith, cost-join e f)

  -- The same steps from the far end.
  pub backwards :
      {xs ys : List A} (e : Edit xs ys) → (f : Edit (reverse xs) (reverse ys)) × (cost f ≡ cost e)
  unfolding cost
  backwards done = (done, refl)
  backwards (delete {xs} {ys} x e) =
      let (f, p) = backwards e in
      moved (sym (reverse-cons x xs)) (append-nil (reverse ys)) (join f (delete x done))
        (omega (arith, cost-join f (delete x done), p))
  backwards (insert {xs} {ys} y e) =
      let (f, p) = backwards e in
      moved (append-nil (reverse xs)) (sym (reverse-cons y ys)) (join f (insert y done))
        (omega (arith, cost-join f (insert y done), p))
  backwards (substitute {xs} {ys} x y e) =
      let (f, p) = backwards e in
      moved (sym (reverse-cons x xs)) (sym (reverse-cons y ys)) (join f (substitute x y done))
        (omega (arith, cost-join f (substitute x y done), p))

  -- An edit in the other direction.
  pub undo : {xs ys : List A} (e : Edit xs ys) → (f : Edit ys xs) × (cost f ≡ cost e)
  unfolding cost
  undo done = (done, refl)
  undo (delete x e) = let (f, p) = undo e in (insert x f, omega arith)
  undo (insert y e) = let (f, p) = undo e in (delete y f, omega arith)
  undo (substitute x y e) =
      let (f, p) = undo e in (substitute y x f, omega (arith, differs_comm u x y))

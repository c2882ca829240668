-- ===== src/Eval/Score/Merge.antt =====
-- Scores of parts of a corpus, put together.
use ocr_orchestrator.Common.{
  ◌+◌, ◌≡◌, true, some, List, [], ◌∷◌, ◌++◌, arith, length, ◌<◌, ◌↔◌, ap, sym,
}
use ocr_orchestrator.Eval.Score.{
  UnitName, unit_eq, TextScore, errors_in, length_in, all_unit, aggregate,
}

errors_in-append : (xs ys : List TextScore) → errors_in (xs ++ ys) ≡ errors_in xs + errors_in ys
errors_in-append [] ys = omega arith
errors_in-append (x ∷ xs) ys = omega (arith, errors_in-append xs ys)

length_in-append : (xs ys : List TextScore) → length_in (xs ++ ys) ≡ length_in xs + length_in ys
length_in-append [] ys = omega arith
length_in-append (x ∷ xs) ys = omega (arith, length_in-append xs ys)

unit_eq_iff : (a b : UnitName) → (unit_eq a b ≡ true) ↔ (a ≡ b)
unit_eq_iff a b = ground arith

unit_eq_trans : (a b c : UnitName) → unit_eq a b ≡ true → unit_eq b c ≡ unit_eq a c
unit_eq_trans a b c e = ap (λ n. unit_eq n c) (sym ((unit_eq_iff a b).0 e))

-- Against the unit `n`, a list with one unit throughout is judged by its first element.
all_unit-cons :
    (n : UnitName) (y : TextScore) (ys : List TextScore)
    → all_unit y.unit ys ≡ true
    → all_unit n (y ∷ ys) ≡ unit_eq n y.unit
all_unit-cons n y [] b = ground arith
all_unit-cons n y (z ∷ ys) b = ground (arith, all_unit-cons n y ys, unit_eq_trans n y.unit z.unit)

all_unit-append :
    (n : UnitName) (xs : List TextScore) (y : TextScore) (ys : List TextScore)
    → all_unit n xs ≡ true
    → all_unit y.unit ys ≡ true
    → all_unit n (xs ++ (y ∷ ys)) ≡ unit_eq n y.unit
all_unit-append n [] y ys a b = all_unit-cons n y ys b
all_unit-append n (x ∷ xs) y ys a b = ground (arith, all_unit-append n xs y ys)

total : TextScore → List TextScore → TextScore
total x xs = record { errors = errors_in (x ∷ xs); length = length_in (x ∷ xs); unit = x.unit }

aggregate-some :
    (x : TextScore) (xs : List TextScore) (a : TextScore)
    → aggregate (x ∷ xs) ≡ some a
    → (all_unit x.unit xs ≡ true) × (a ≡ total x xs)
unfolding total
aggregate-some x xs a e = ground arith

total-append :
    (x : TextScore) (xs : List TextScore) (y : TextScore) (ys : List TextScore)
    → all_unit x.unit xs ≡ true
    → all_unit y.unit ys ≡ true
    → aggregate ((x ∷ xs) ++ (y ∷ ys)) ≡ aggregate (total x xs ∷ total y ys ∷ [])
unfolding total
total-append x xs y ys a b = ground (
  arith,
  all_unit-append x.unit xs y ys,
  errors_in-append xs (y ∷ ys),
  length_in-append xs (y ∷ ys),
)

-- The aggregate of two parts of a corpus, neither of them empty, is the aggregate of their two
-- aggregates, mixed units included.
pub aggregate_merge :
    (xs ys : List TextScore) (a b : TextScore)
    → 0 < length xs
    → 0 < length ys
    → aggregate xs ≡ some a
    → aggregate ys ≡ some b
    → aggregate (xs ++ ys) ≡ aggregate (a ∷ b ∷ [])
aggregate_merge [] ys a b p q e f = ground arith
aggregate_merge (x ∷ xs) [] a b p q e f = ground arith
aggregate_merge (x ∷ xs) (y ∷ ys) a b p q e f =
    let left = aggregate-some x xs a e in
    let right = aggregate-some y ys b f in
    rw (left.1, right.1) (total-append x xs y ys left.0 right.0)

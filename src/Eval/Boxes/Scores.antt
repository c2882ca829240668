-- ===== src/Eval/Boxes/Scores.antt =====
-- The order of scores, and the candidates and their sort, for app/eval/iou.py.
use mathlib.Core.Path.{subst}
use native.Mathlib.Nat.{le_of_mul-le-mul_right, mul-le-mul_right}
use ocr_orchestrator.Common.{
  ℕ, zero, suc, ◌+◌, ◌*◌, ◌≤◌, ◌≡◌, refl, Bool, true, false, ◌&&◌, ◌||◌, some, List, [], ◌∷◌, ◌++◌,
  arith, leb, All, All-map, get_elem?, Bool-cases, inl, inr, ap, ◌∙◌, not,
}
use ocr_orchestrator.Eval.Boxes.{
  Box, Score, IsAtMost, is_positive, iou, Match, candidate, candidates_of, candidates_from,
  index_leb, comes_first, place, insert, sort,
}

mul_swap : (a b c : ℕ) → a * b * c ≡ a * c * b
mul_swap a b c = grind arith

pub IsAtMost_trans : (a b c : Score) → IsAtMost a b → IsAtMost b c → IsAtMost a c
IsAtMost_trans a b c h k =
    le_of_mul-le-mul_right {k = suc b.below}
      (omega (
        arith,
        mul-le-mul_right (suc c.below) h,
        mul-le-mul_right (suc a.below) k,
        mul_swap a.num (suc b.below) (suc c.below),
        mul_swap b.num (suc a.below) (suc c.below),
        mul_swap c.num (suc b.below) (suc a.below),
      ))
      (omega arith)

-- No later candidate scores higher.
abbrev pub IsDescending : List Match → Type 0
IsDescending [] = Unit
IsDescending (m ∷ ms) = All (λ n. IsAtMost n.score m.score) ms × IsDescending ms

pub All-append {κ} :
    (P : Match → Type κ) (xs ys : List Match) → All P xs → All P ys → All P (xs ++ ys)
All-append P [] ys h k = k
All-append P (x ∷ xs) ys h k = (h.0, All-append P xs ys h.1 k)

pub All-left {κ} : (P : Match → Type κ) (xs ys : List Match) → All P (xs ++ ys) → All P xs
All-left P [] ys h = tt
All-left P (x ∷ xs) ys h = (h.0, All-left P xs ys h.1)

pub All-right {κ} : (P : Match → Type κ) (xs ys : List Match) → All P (xs ++ ys) → All P ys
All-right P [] ys h = h
All-right P (x ∷ xs) ys h = All-right P xs ys h.1

module _ {κ} (P : Match → Type κ) where
  place-All :
      (b : Bool) (m n : Match) (ms rest : List Match)
      → P m
      → All P (n ∷ ms)
      → All P rest
      → All P (place b m n ms rest)
  place-All true m n ms rest p h k = (p, h)
  place-All false m n ms rest p h k = (h.0, k)

  insert-All : (m : Match) (ms : List Match) → P m → All P ms → All P (insert m ms)
  unfolding insert
  insert-All m [] p h = (p, tt)
  insert-All m (n ∷ ms) p h =
      place-All (comes_first m n) m n ms (insert m ms) p h (insert-All m ms p h.1)

  pub sort-All : (ms : List Match) → All P ms → All P (sort ms)
  unfolding sort
  sort-All [] h = tt
  sort-All (m ∷ ms) h = insert-All m (sort ms) h.0 (sort-All ms h.1)

  place-back :
      (b : Bool) (m n : Match) (ms rest : List Match)
      → (All P rest → P m × All P ms)
      → All P (place b m n ms rest)
      → P m × All P (n ∷ ms)
  place-back true m n ms rest f h = h
  place-back false m n ms rest f h = let r = f h.1 in (r.0, (h.0, r.1))

  insert-back : (m : Match) (ms : List Match) → All P (insert m ms) → P m × All P ms
  unfolding insert
  insert-back m [] h = h
  insert-back m (n ∷ ms) h = place-back (comes_first m n) m n ms (insert m ms) (insert-back m ms) h

  -- What holds of the sorted candidates holds of the candidates.
  pub sort-back : (ms : List Match) → All P (sort ms) → All P ms
  unfolding sort
  sort-back [] h = tt
  sort-back (m ∷ ms) h = let r = insert-back m (sort ms) h in (r.0, sort-back ms r.1)

  candidate-All :
      (i j : ℕ) (s : Score) (rest : List Match)
      → (is_positive s ≡ true → P (record { predicted_index = i; truth_index = j; score = s }))
      → All P rest
      → All P (candidate i j s rest)
  candidate-All i j s rest p h = elim (Bool-cases (is_positive s)) [
    | inl e ↦ rw e (p e, h)
    | inr e ↦ rw e h
  ]

  candidate-back :
      (i j : ℕ) (s : Score) (rest : List Match)
      → All P (candidate i j s rest)
      → (is_positive s ≡ true → P (record { predicted_index = i; truth_index = j; score = s }))
        × All P rest
  candidate-back i j s rest = elim (Bool-cases (is_positive s)) [
    | inl e ↦ rw e (λ h. (λ p. h.0, h.1))
    | inr e ↦ rw e (λ h. (λ p. cc, h))
  ]

first_true : (p q : ℕ) (b : Bool) → (leb p q && (not (leb q p) || b)) ≡ true → p ≤ q
first_true p q b h = ground arith

first_false : (p q : ℕ) (b : Bool) → (leb p q && (not (leb q p) || b)) ≡ false → q ≤ p
first_false p q b h = ground arith

insert-IsDescending : (m : Match) (ms : List Match) → IsDescending ms → IsDescending (insert m ms)
unfolding insert
insert-IsDescending m [] d = (tt, tt)
insert-IsDescending m (n ∷ ms) d = elim (Bool-cases (comes_first m n)) [
  | inl e ↦
      let le =
        first_true (n.score.num * suc m.score.below) (m.score.num * suc n.score.below)
          (index_leb m n) e in
      rw e (((le, All-map _ _ (λ x k. IsAtMost_trans x.score n.score m.score k le) ms d.0), d))
  | inr e ↦ rw e (
      (
        insert-All (λ x. IsAtMost x.score n.score) m ms
            (first_false (n.score.num * suc m.score.below) (m.score.num * suc n.score.below)
              (index_leb m n) e)
            d.0,
        insert-IsDescending m ms d.1,
      ))
]

pub sort-IsDescending : (ms : List Match) → IsDescending (sort ms)
unfolding sort
sort-IsDescending [] = tt
sort-IsDescending (m ∷ ms) = insert-IsDescending m (sort ms) (sort-IsDescending ms)

-- A candidate is a pair of boxes with their score, which is positive.
pub record IsCandidate (i j : ℕ) (ps ts : List Box) (m : Match) : Type 0 where
  pub row : ℕ
  pub column : ℕ
  pub of_predicted : Box
  pub of_truth : Box
  pub at_row : m.predicted_index ≡ i + row
  pub at_column : m.truth_index ≡ j + column
  pub is_predicted : get_elem? ps row ≡ some of_predicted
  pub is_truth : get_elem? ts column ≡ some of_truth
  pub is_score : m.score ≡ iou of_predicted of_truth
  pub overlaps : is_positive m.score ≡ true

next_column :
    (p : Box) (i j : ℕ) (t : Box) (ts : List Box) (m : Match)
    → IsCandidate i (suc j) (p ∷ []) ts m
    → IsCandidate i j (p ∷ []) (t ∷ ts) m
next_column p i j t ts m c = record {
  row = c.row;
  column = suc c.column;
  of_predicted = c.of_predicted;
  of_truth = c.of_truth;
  at_row = c.at_row;
  at_column = c.at_column ∙ omega arith;
  is_predicted = c.is_predicted;
  is_truth = c.is_truth;
  is_score = c.is_score;
  overlaps = c.overlaps;
}

candidates_of-All :
    (p : Box) (i j : ℕ) (ts : List Box)
    → All (λ m. IsCandidate i j (p ∷ []) ts m) (candidates_of p i j ts)
unfolding candidates_of
candidates_of-All p i j [] = tt
candidates_of-All p i j (t ∷ ts) =
    candidate-All (λ m. IsCandidate i j (p ∷ []) (t ∷ ts) m) i j (iou p t)
      (candidates_of p i (suc j) ts)
      (λ e. record {
        row = 0;
        column = 0;
        of_predicted = p;
        of_truth = t;
        at_row = omega arith;
        at_column = omega arith;
        is_predicted = refl;
        is_truth = refl;
        is_score = refl;
        overlaps = e;
      })
      (All-map _ _ (next_column p i j t ts) (candidates_of p i (suc j) ts)
        (candidates_of-All p i (suc j) ts))

only_row :
    (p : Box) (ps : List Box) (k : ℕ) (q : Box)
    → get_elem? (p ∷ []) k ≡ some q
    → get_elem? (p ∷ ps) k ≡ some q
only_row p ps zero q h = h
only_row p ps (suc k) q h = cc

first_row :
    (i j : ℕ) (p : Box) (ps ts : List Box) (m : Match)
    → IsCandidate i j (p ∷ []) ts m
    → IsCandidate i j (p ∷ ps) ts m
first_row i j p ps ts m c = record {
  row = c.row;
  column = c.column;
  of_predicted = c.of_predicted;
  of_truth = c.of_truth;
  at_row = c.at_row;
  at_column = c.at_column;
  is_predicted = only_row p ps c.row c.of_predicted c.is_predicted;
  is_truth = c.is_truth;
  is_score = c.is_score;
  overlaps = c.overlaps;
}

next_row :
    (i j : ℕ) (p : Box) (ps ts : List Box) (m : Match)
    → IsCandidate (suc i) j ps ts m
    → IsCandidate i j (p ∷ ps) ts m
next_row i j p ps ts m c = record {
  row = suc c.row;
  column = c.column;
  of_predicted = c.of_predicted;
  of_truth = c.of_truth;
  at_row = c.at_row ∙ omega arith;
  at_column = c.at_column;
  is_predicted = c.is_predicted;
  is_truth = c.is_truth;
  is_score = c.is_score;
  overlaps = c.overlaps;
}

pub candidates_from-All :
    (i : ℕ) (ps ts : List Box) → All (λ m. IsCandidate i 0 ps ts m) (candidates_from i ps ts)
unfolding candidates_from
candidates_from-All i [] ts = tt
candidates_from-All i (p ∷ ps) ts =
    All-append _ (candidates_of p i 0 ts) (candidates_from (suc i) ps ts)
      (All-map _ _ (first_row i 0 p ps ts) (candidates_of p i 0 ts) (candidates_of-All p i 0 ts))
      (All-map _ _ (next_row i 0 p ps ts) (candidates_from (suc i) ps ts)
        (candidates_from-All (suc i) ps ts))

abbrev pub as_match : ℕ → ℕ → Score → Match
as_match i j s = record { predicted_index = i; truth_index = j; score = s }

-- Every pair of boxes that overlaps is a candidate.
module _ {κ} (P : Match → Type κ) where
  find_column :
      (p t : Box) (i j l : ℕ) (ts : List Box)
      → All P (candidates_of p i j ts)
      → get_elem? ts l ≡ some t
      → is_positive (iou p t) ≡ true
      → P (as_match i (j + l) (iou p t))
  unfolding candidates_of
  find_column p t i j l [] h e o = cc
  find_column p t i j zero (u ∷ ts) h e o =
      let same : u ≡ t = cc in
      let at_u : is_positive (iou p u) ≡ true = ap (λ b. is_positive (iou p b)) same ∙ o in
      let found = (candidate-back P i j (iou p u) (candidates_of p i (suc j) ts) h).0 at_u in
      subst (λ n. P (as_match i n (iou p t))) (omega arith)
        (subst (λ b. P (as_match i j (iou p b))) same found)
  find_column p t i j (suc l) (u ∷ ts) h e o =
      let rest = (candidate-back P i j (iou p u) (candidates_of p i (suc j) ts) h).1 in
      subst (λ n. P (as_match i n (iou p t))) (omega arith)
        (find_column p t i (suc j) l ts rest e o)

  pub find_pair :
      (p t : Box) (i k l : ℕ) (ps ts : List Box)
      → All P (candidates_from i ps ts)
      → get_elem? ps k ≡ some p
      → get_elem? ts l ≡ some t
      → is_positive (iou p t) ≡ true
      → P (as_match (i + k) l (iou p t))
  unfolding candidates_from
  find_pair p t i k l [] ts h e f o = cc
  find_pair p t i zero l (q ∷ ps) ts h e f o =
      let same : q ≡ p = cc in
      let left = All-left P (candidates_of q i 0 ts) (candidates_from (suc i) ps ts) h in
      subst (λ n. P (as_match n l (iou p t))) (omega arith)
        (subst (λ n. P (as_match i n (iou p t))) (omega arith)
          (find_column p t i 0 l ts (subst (λ b. All P (candidates_of b i 0 ts)) same left) f o))
  find_pair p t i (suc k) l (q ∷ ps) ts h e f o =
      subst (λ n. P (as_match n l (iou p t))) (omega arith)
        (find_pair p t (suc i) k l ps ts
          (All-right P (candidates_of q i 0 ts) (candidates_from (suc i) ps ts) h) e f o)

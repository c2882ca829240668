-- ===== src/Eval/Boxes/Accounts.antt =====
-- The counts of `score_boxes` in app/eval/iou.py.
use ocr_orchestrator.Common.{
  ℕ, zero, suc, ◌+◌, ◌≤◌, ◌<◌, ◌≡◌, refl, Bool, true, false, ◌||◌, some, List, [], ◌∷◌, arith, ◌==◌,
  All, get_elem?, if◌then◌else◌, Bool-cases, inl, inr, length, length-append, count_if-le, ap, ◌∙◌,
}
use ocr_orchestrator.Eval.Boxes.{
  Box, Score, leb_score, Match, Claims, is_claimed, added, claim, claim_all, no_claims, has, unless,
  unclaimed, candidates_from, sort, match_all, match_boxes, BoxReport, report, score_boxes,
}
use ocr_orchestrator.Eval.Boxes.Scores.{sort-All, IsCandidate, candidates_from-All}
use ocr_orchestrator.Eval.Boxes.Stable.{IsBox, as_boxes_lem}

unclaimed-none : (i n : ℕ) → length (unclaimed i n []) ≡ n
unfolding unclaimed
unclaimed-none i zero = refl
unclaimed-none i (suc n) = omega (arith, unclaimed-none (suc i) n)

length-unless :
    (b : Bool) (i : ℕ) (rest : List ℕ)
    → length (unless b i rest) ≡ length rest + (if b then 0 else 1)
length-unless true i rest = omega arith
length-unless false i rest = omega arith

-- A claim of an index in front of the range changes nothing of it.
unclaimed-past :
    (i n k : ℕ) (s : List ℕ) → k < i → length (unclaimed i n (k ∷ s)) ≡ length (unclaimed i n s)
unfolding unclaimed
unclaimed-past i zero k s h = refl
unclaimed-past i (suc n) k s h =
    let other : (i == k) ≡ false = ground arith in
    let rest = unclaimed-past (suc i) n k s (omega arith) in
    rw other (
      omega (
        arith,
        rest,
        length-unless (has i s) i (unclaimed (suc i) n (k ∷ s)),
        length-unless (has i s) i (unclaimed (suc i) n s),
      ))

-- A claim of an index of the range takes one.
unclaimed-one :
    (i n k : ℕ) (s : List ℕ)
    → i ≤ k
    → k < i + n
    → has k s ≡ false
    → length (unclaimed i n (k ∷ s)) + 1 ≡ length (unclaimed i n s)
unfolding unclaimed
unclaimed-one i zero k s low high free = absurd (omega arith)
unclaimed-one i (suc n) k s low high free = elim (Bool-cases (i == k)) [
  | inl e ↦
      let same : i ≡ k = ground arith in
      let open_slot : has i s ≡ false = ap (λ x. has x s) same ∙ free in
      rw (e, open_slot) (omega (arith, unclaimed-past (suc i) n k s (omega arith)))
  | inr e ↦ rw e (
      omega (
        arith,
        unclaimed-one (suc i) n k s (ground arith) (omega arith) free,
        length-unless (has i s) i (unclaimed (suc i) n (k ∷ s)),
        length-unless (has i s) i (unclaimed (suc i) n s),
      ))
]

get-lt : {A : Type 0} (xs : List A) (k : ℕ) {x : A} → get_elem? xs k ≡ some x → k < length xs
get-lt [] k e = cc
get-lt (y ∷ ys) zero e = omega arith
get-lt (y ∷ ys) (suc k) e = omega (arith, get-lt ys k e)

module _ (ps ts : List Box) where
  -- Every box is matched or left over.
  abbrev AddsUp : Claims → Type 0
  AddsUp c =
      (length c.matches + length (unclaimed 0 (length ps) c.claimed_predicted) ≡ length ps)
      × (length c.matches + length (unclaimed 0 (length ts) c.claimed_truth) ≡ length ts)

  added-AddsUp :
      (m : Match) (c : Claims)
      → IsCandidate 0 0 ps ts m
      → has m.predicted_index c.claimed_predicted ≡ false
      → has m.truth_index c.claimed_truth ≡ false
      → AddsUp c
      → AddsUp (added m c)
  added-AddsUp m c k p t h =
      let row = get-lt ps k.row k.is_predicted in
      let column = get-lt ts k.column k.is_truth in
      let more = length-append c.matches (m ∷ []) in
      (
        omega (
          arith,
          more,
          unclaimed-one 0 (length ps) m.predicted_index c.claimed_predicted (omega arith)
              (omega (arith, row, k.at_row)) p,
        ),
        omega (
          arith,
          more,
          unclaimed-one 0 (length ts) m.truth_index c.claimed_truth (omega arith)
              (omega (arith, column, k.at_column)) t,
        ),
      )

  free_left : (a b : Bool) → (a || b) ≡ false → a ≡ false
  free_left a b h = ground arith

  free_right : (a b : Bool) → (a || b) ≡ false → b ≡ false
  free_right a b h = ground arith

  claim-AddsUp : (m : Match) (c : Claims) → IsCandidate 0 0 ps ts m → AddsUp c → AddsUp (claim m c)
  claim-AddsUp m c k h = elim (Bool-cases (is_claimed m c)) [
    | inl e ↦ rw e h
    | inr e ↦ rw e (
        added-AddsUp m c k
          (free_left (has m.predicted_index c.claimed_predicted) (has m.truth_index c.claimed_truth)
            e)
          (free_right (has m.predicted_index c.claimed_predicted)
            (has m.truth_index c.claimed_truth) e)
          h)
  ]

  claim_all-AddsUp :
      (ms : List Match) (c : Claims)
      → All (IsCandidate 0 0 ps ts) ms
      → AddsUp c
      → AddsUp (claim_all ms c)
  unfolding claim_all
  claim_all-AddsUp [] c k h = h
  claim_all-AddsUp (m ∷ ms) c k h = claim_all-AddsUp ms (claim m c) k.1 (claim-AddsUp m c k.0 h)

  matched-AddsUp : AddsUp (claim_all (sort (candidates_from 0 ps ts)) no_claims)
  matched-AddsUp =
      claim_all-AddsUp (sort (candidates_from 0 ps ts)) no_claims
        (sort-All (IsCandidate 0 0 ps ts) (candidates_from 0 ps ts) (candidates_from-All 0 ps ts))
        (omega (arith, unclaimed-none 0 (length ps)), omega (arith, unclaimed-none 0 (length ts)))

  abbrev pub Balanced : BoxReport → Type 0
  Balanced r =
      (r.true_positives + r.false_positives ≡ length ps)
      × (r.true_positives + r.false_negatives ≡ length ts)
      × (r.truth_count ≡ length ts)
      × (r.true_positives ≤ r.matched_count)
      × (r.matched_count ≤ length ps)

  report-Balanced : (threshold : Score) → Balanced (report threshold (match_all ps ts))
  unfolding match_all report
  report-Balanced threshold =
      let a = matched-AddsUp in
      let n =
        count_if-le (λ x. leb_score threshold x.score)
          (claim_all (sort (candidates_from 0 ps ts)) no_claims).matches in
      (omega arith, omega arith, omega arith, omega arith, omega arith)

-- A page with no negative extents is scored, and its report accounts for every box once: each
-- predicted box is a true or a false positive, and each true box is found or a false negative.
pub score_boxes_accounts :
    (predicted truth : List Box) (threshold : Score)
    → All IsBox predicted
    → All IsBox truth
    → (r : BoxReport) × (score_boxes predicted truth threshold ≡ some r)
      × Balanced predicted truth r
unfolding score_boxes match_boxes
score_boxes_accounts predicted truth threshold p t = (
  report threshold (match_all predicted truth),
  rw (as_boxes_lem predicted p, as_boxes_lem truth t) refl,
  report-Balanced predicted truth threshold,
)

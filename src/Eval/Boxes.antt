-- ===== src/Eval/Boxes.antt =====
-- app/eval/iou.py: the overlap of boxes, their greedy matching and the counts of a page. Coordinates
-- are whole numbers and a score is an exact fraction, where the code has doubles; the shapes that
-- `as_box` accepts besides a Box are left out.
pub mod Scores
pub mod Stable
pub mod Accounts
use ocr_orchestrator.Common.{
  ℕ, zero, suc, ◌+◌, ◌-◌, ◌*◌, ◌≤◌, Bool, true, false, not, ◌&&◌, ◌||◌, Option, none, some, List,
  [], ◌∷◌, ◌++◌, ltb, leb, ◌==◌, if◌then◌else◌, length, count_if, ◌>>=◌,
}
use ocr_orchestrator.Common.Int.{ℤ, pos, ◌+ℤ◌, ◌-ℤ◌, ltb_ℤ, pos_part}

pub record Box : Type 0 where
  pub x : ℤ
  pub y : ℤ
  pub w : ℤ
  pub h : ℤ

abbrev pub x2 : Box → ℤ
x2 b = b.x +ℤ b.w

abbrev pub y2 : Box → ℤ
y2 b = b.y +ℤ b.h

-- `as_box` and `as_boxes`; `none` is the ValueError of a negative extent.
abbrev pub as_box : Box → Option Box
as_box b = if ltb_ℤ b.w (pos 0) || ltb_ℤ b.h (pos 0) then none else some b

abbrev pub add_box : Box → Option (List Box) → Option (List Box)
add_box b none = none
add_box b (some bs) = some (b ∷ bs)

unfoldable pub as_boxes : List Box → Option (List Box)
as_boxes [] = some []
as_boxes (b ∷ bs) = do first ← as_box b; add_box first (as_boxes bs)

-- The fraction num / (below + 1).
pub record Score : Type 0 where
  pub num : ℕ
  pub below : ℕ

abbrev pub IsAtMost : Score → Score → Type 0
IsAtMost a b = a.num * suc b.below ≤ b.num * suc a.below

abbrev pub leb_score : Score → Score → Bool
leb_score a b = leb (a.num * suc b.below) (b.num * suc a.below)

abbrev pub is_positive : Score → Bool
is_positive a = ltb 0 a.num

-- `max(0.0, min(a2, b2) - max(a1, b1))`
abbrev pub min_ℤ : ℤ → ℤ → ℤ
min_ℤ a b = if ltb_ℤ b a then b else a

abbrev pub max_ℤ : ℤ → ℤ → ℤ
max_ℤ a b = if ltb_ℤ a b then b else a

abbrev pub overlap : (a1 a2 b1 b2 : ℤ) → ℕ
overlap a1 a2 b1 b2 = pos_part (min_ℤ a2 b2 -ℤ max_ℤ a1 b1)

-- The area of a box that `as_box` accepts.
abbrev pub area : Box → ℕ
area b = pos_part b.w * pos_part b.h

abbrev pub intersection : Box → Box → ℕ
intersection a b = overlap a.x (x2 a) b.x (x2 b) * overlap a.y (y2 a) b.y (y2 b)

-- A fraction of natural numbers, 0 if the denominator is not positive.
abbrev pub ratio : ℕ → ℕ → Score
ratio n zero = record { num = 0; below = 0 }
ratio n (suc d) = record { num = n; below = d }

unfoldable pub iou : Box → Box → Score
iou a b = ratio (intersection a b) (area a + area b - intersection a b)

pub record Match : Type 0 where
  pub predicted_index : ℕ
  pub truth_index : ℕ
  pub score : Score

pub record Matching : Type 0 where
  pub matches : List Match
  pub unmatched_predicted : List ℕ
  pub unmatched_truth : List ℕ

-- The candidates: every pair with a positive score.
abbrev pub candidate : ℕ → ℕ → Score → List Match → List Match
candidate i j s rest =
    if is_positive s
    then record { predicted_index = i; truth_index = j; score = s } ∷ rest
    else rest

unfoldable pub candidates_of : Box → (i j : ℕ) → List Box → List Match
candidates_of p i j [] = []
candidates_of p i j (t ∷ ts) = candidate i j (iou p t) (candidates_of p i (suc j) ts)

unfoldable pub candidates_from : ℕ → (predicted truth : List Box) → List Match
unfolding candidates_of
candidates_from i [] ts = []
candidates_from i (p ∷ ps) ts = candidates_of p i 0 ts ++ candidates_from (suc i) ps ts

-- The sort by the key (-score, i, j).
abbrev pub index_leb : Match → Match → Bool
index_leb a b =
    ltb a.predicted_index b.predicted_index
    || (a.predicted_index == b.predicted_index && leb a.truth_index b.truth_index)

abbrev pub comes_first : Match → Match → Bool
comes_first a b = leb_score b.score a.score && (not (leb_score a.score b.score) || index_leb a b)

abbrev pub place : Bool → Match → Match → (ms rest : List Match) → List Match
place true m n ms rest = m ∷ n ∷ ms
place false m n ms rest = n ∷ rest

unfoldable pub insert : Match → List Match → List Match
insert m [] = m ∷ []
insert m (n ∷ ms) = place (comes_first m n) m n ms (insert m ms)

unfoldable pub sort : List Match → List Match
unfolding insert
sort [] = []
sort (m ∷ ms) = insert m (sort ms)

abbrev pub has : ℕ → List ℕ → Bool
has i [] = false
has i (j ∷ js) = (i == j) || has i js

-- The loop over the candidates.
pub record Claims : Type 0 where
  pub matches : List Match
  pub claimed_predicted : List ℕ
  pub claimed_truth : List ℕ

abbrev pub is_claimed : Match → Claims → Bool
is_claimed m c = has m.predicted_index c.claimed_predicted || has m.truth_index c.claimed_truth

abbrev pub added : Match → Claims → Claims
added m c = record {
  matches = c.matches ++ m ∷ [];
  claimed_predicted = m.predicted_index ∷ c.claimed_predicted;
  claimed_truth = m.truth_index ∷ c.claimed_truth;
}

abbrev pub claim : Match → Claims → Claims
claim m c = if is_claimed m c then c else added m c

unfoldable pub claim_all : List Match → Claims → Claims
claim_all [] c = c
claim_all (m ∷ ms) c = claim_all ms (claim m c)

abbrev pub unless : Bool → ℕ → List ℕ → List ℕ
unless b i rest = if b then rest else i ∷ rest

-- The indices from `i` to `i + n - 1` that are not claimed.
unfoldable pub unclaimed : (i n : ℕ) → List ℕ → List ℕ
unclaimed i zero claimed = []
unclaimed i (suc n) claimed = unless (has i claimed) i (unclaimed (suc i) n claimed)

abbrev pub no_claims : Claims
no_claims = record { matches = []; claimed_predicted = []; claimed_truth = [] }

abbrev pub matching_of : (predicted truth : List Box) → Claims → Matching
matching_of ps ts c = record {
  matches = c.matches;
  unmatched_predicted = unclaimed 0 (length ps) c.claimed_predicted;
  unmatched_truth = unclaimed 0 (length ts) c.claimed_truth;
}

unfoldable pub match_all : (predicted truth : List Box) → Matching
unfolding candidates_from sort claim_all unclaimed
match_all ps ts = matching_of ps ts (claim_all (sort (candidates_from 0 ps ts)) no_claims)

-- `match_boxes`
unfoldable pub match_boxes : (predicted truth : List Box) → Option Matching
unfolding match_all as_boxes
match_boxes predicted truth = do
  ps ← as_boxes predicted
  ts ← as_boxes truth
  some (match_all ps ts)

-- `iou_sum`
abbrev pub add_scores : Score → Score → Score
add_scores a b = record {
  num = a.num * suc b.below + b.num * suc a.below;
  below = suc a.below * suc b.below - 1;
}

unfoldable pub iou_sum : List Match → Score
iou_sum [] = record { num = 0; below = 0 }
iou_sum (m ∷ ms) = add_scores m.score (iou_sum ms)

-- `score_boxes`
pub record BoxReport : Type 0 where
  pub true_positives : ℕ
  pub false_positives : ℕ
  pub false_negatives : ℕ
  pub iou_sum : Score
  pub matched_count : ℕ
  pub truth_count : ℕ
  pub threshold : Score

unfoldable pub report : Score → Matching → BoxReport
unfolding iou_sum
report threshold m =
    let hits = count_if (λ x. leb_score threshold x.score) m.matches in
    let weak = length m.matches - hits in
    record {
      true_positives = hits;
      false_positives = length m.unmatched_predicted + weak;
      false_negatives = length m.unmatched_truth + weak;
      iou_sum = iou_sum m.matches;
      matched_count = length m.matches;
      truth_count = length m.matches + length m.unmatched_truth;
      threshold = threshold;
    }

unfoldable pub score_boxes : (predicted truth : List Box) → Score → Option BoxReport
unfolding match_boxes report
score_boxes predicted truth threshold = do
  m ← match_boxes predicted truth
  some (report threshold m)

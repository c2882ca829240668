-- ===== src/Eval/Boxes/Stable.antt =====
-- The greedy loop of `match_boxes` in app/eval/iou.py, and what its result is.
use mathlib.Core.Path.{subst}
use ocr_orchestrator.Common.{
  ℕ, ◌≡◌, ◌≢◌, refl, Bool, true, false, ◌||◌, some, List, [], ◌∷◌, ◌++◌, arith, ◌⊎◌, inl, inr, ◌==◌,
  All, get_elem?, Bool-cases, sym,
}
use ocr_orchestrator.Common.Int.{neg_part}
use ocr_orchestrator.Eval.Boxes.{
  Box, Score, IsAtMost, is_positive, iou, Match, Matching, Claims, is_claimed, claim, claim_all,
  no_claims, has, candidates_from, sort, match_all, match_boxes, as_box, as_boxes,
}
use ocr_orchestrator.Eval.Boxes.Scores.{
  IsDescending, sort-All, sort-back, sort-IsDescending, IsCandidate, candidates_from-All, find_pair,
  All-append,
}

-- Some element of a list satisfies a predicate.
abbrev pub Any : (Match → Type 0) → List Match → Type 0
Any P [] = ⊥
Any P (x ∷ xs) = P x ⊎ Any P xs

Any-left : (P : Match → Type 0) (xs ys : List Match) → Any P xs → Any P (xs ++ ys)
Any-left P [] ys h = absurd h
Any-left P (x ∷ xs) ys (inl h) = inl h
Any-left P (x ∷ xs) ys (inr h) = inr (Any-left P xs ys h)

Any-last : (P : Match → Type 0) (xs : List Match) (y : Match) → P y → Any P (xs ++ y ∷ [])
Any-last P [] y h = inl h
Any-last P (x ∷ xs) y h = inr (Any-last P xs y h)

-- The claimed indices are those of the matches.
abbrev pub Tracks : (Match → ℕ) → List ℕ → List Match → Type 0
Tracks f claimed ms =
    (i : ℕ)
    → ((has i claimed ≡ true → Any (λ x. f x ≡ i) ms)
        × (has i claimed ≡ false → All (λ x. f x ≢ i) ms))

or_right : (a b : Bool) → (a || b) ≡ true → a ≡ false → b ≡ true
or_right a b h k = ground arith

or_false_left : (a b : Bool) → (a || b) ≡ false → a ≡ false
or_false_left a b h = ground arith

or_false_right : (a b : Bool) → (a || b) ≡ false → b ≡ false
or_false_right a b h = ground arith

differs : (i j : ℕ) → (i == j) ≡ false → i ≢ j
differs i j h = ground arith

Tracks-added :
    (f : Match → ℕ) (claimed : List ℕ) (ms : List Match) (m : Match)
    → Tracks f claimed ms
    → Tracks f (f m ∷ claimed) (ms ++ m ∷ [])
Tracks-added f claimed ms m tracks i = (
  λ h. elim (Bool-cases (i == f m)) [
    | inl e ↦ Any-last (λ x. f x ≡ i) ms m (ground arith)
    | inr e ↦ Any-left (λ x. f x ≡ i) ms (m ∷ []) ((tracks i).0 (or_right (i == f m) _ h e))
  ],
  λ h.
      All-append (λ x. f x ≢ i) ms (m ∷ [])
        ((tracks i).1 (or_false_right (i == f m) (has i claimed) h))
        (λ e. differs i (f m) (or_false_left (i == f m) (has i claimed) h) (sym e), tt),
)

-- No two matches share a box.
abbrev pub AreApart : List Match → Type 0
AreApart [] = Unit
AreApart (x ∷ xs) =
    All (λ y. (y.predicted_index ≢ x.predicted_index) × (y.truth_index ≢ x.truth_index)) xs
    × AreApart xs

AreApart-added :
    (xs : List Match) (m : Match)
    → AreApart xs
    → All (λ x. x.predicted_index ≢ m.predicted_index) xs
    → All (λ x. x.truth_index ≢ m.truth_index) xs
    → AreApart (xs ++ m ∷ [])
AreApart-added [] m h p t = (tt, tt)
AreApart-added (x ∷ xs) m h p t = (
  All-append _ xs (m ∷ []) h.0 ((λ e. p.0 (sym e), λ e. t.0 (sym e)), tt),
  AreApart-added xs m h.1 p.1 t.1,
)

-- A pair is not better than a match that has one of its boxes.
abbrev pub Beats : ℕ → ℕ → Score → Match → Type 0
Beats i j s x = ((x.predicted_index ≡ i) ⊎ (x.truth_index ≡ j)) × IsAtMost s x.score

pub record IsSound (c : Claims) : Type 0 where
  pub tracks_predicted : Tracks (λ x. x.predicted_index) c.claimed_predicted c.matches
  pub tracks_truth : Tracks (λ x. x.truth_index) c.claimed_truth c.matches
  pub apart : AreApart c.matches

claim-IsSound : (m : Match) (c : Claims) → IsSound c → IsSound (claim m c)
claim-IsSound m c h = elim (Bool-cases (is_claimed m c)) [
  | inl e ↦ rw e h
  | inr e ↦ rw e (record {
    tracks_predicted =
        Tracks-added (λ x. x.predicted_index) c.claimed_predicted c.matches m h.tracks_predicted;
    tracks_truth = Tracks-added (λ x. x.truth_index) c.claimed_truth c.matches m h.tracks_truth;
    apart =
        AreApart-added c.matches m h.apart
          ((h.tracks_predicted m.predicted_index).1
            (or_false_left (has m.predicted_index c.claimed_predicted) _ e))
          ((h.tracks_truth m.truth_index).1
            (or_false_right (has m.predicted_index c.claimed_predicted) _ e));
  })
]

-- Behind its turn a candidate is beaten by a match, if all matches before score at least as high.
Any-both : (P Q : Match → Type 0) (xs : List Match) → Any P xs → All Q xs → Any (λ x. P x × Q x) xs
Any-both P Q [] h a = absurd h
Any-both P Q (x ∷ xs) (inl h) a = inl (h, a.0)
Any-both P Q (x ∷ xs) (inr h) a = inr (Any-both P Q xs h a.1)

Any-map :
    (P Q : Match → Type 0) (f : (x : Match) → P x → Q x) (xs : List Match) → Any P xs → Any Q xs
Any-map P Q f [] h = absurd h
Any-map P Q f (x ∷ xs) (inl h) = inl (f x h)
Any-map P Q f (x ∷ xs) (inr h) = inr (Any-map P Q f xs h)

abbrev pub Beaten : Claims → Match → Type 0
Beaten c m = Any (Beats m.predicted_index m.truth_index m.score) c.matches

claimed-Beaten :
    (m : Match) (c : Claims)
    → IsSound c
    → All (λ x. IsAtMost m.score x.score) c.matches
    → is_claimed m c ≡ true
    → Beaten c m
claimed-Beaten m c h above e = elim (Bool-cases (has m.predicted_index c.claimed_predicted)) [
  | inl p ↦
      Any-map _ _ (λ x k. (inl k.0, k.1)) c.matches
        (Any-both _ _ c.matches ((h.tracks_predicted m.predicted_index).0 p) above)
  | inr p ↦
      Any-map _ _ (λ x k. (inr k.0, k.1)) c.matches
        (Any-both _ _ c.matches
          ((h.tracks_truth m.truth_index).0
            (or_right (has m.predicted_index c.claimed_predicted) _ e p))
          above)
]

claim-Beaten :
    (m : Match) (c : Claims)
    → IsSound c
    → All (λ x. IsAtMost m.score x.score) c.matches
    → Beaten (claim m c) m
claim-Beaten m c h above = elim (Bool-cases (is_claimed m c)) [
  | inl e ↦ rw e (claimed-Beaten m c h above e)
  | inr e ↦
      rw e (
        Any-last (Beats m.predicted_index m.truth_index m.score) c.matches m
          (inl refl, omega arith))
]

claim-Any :
    (P : Match → Type 0) (m : Match) (c : Claims) → Any P c.matches → Any P (claim m c).matches
claim-Any P m c h = elim (Bool-cases (is_claimed m c)) [
  | inl e ↦ rw e h
  | inr e ↦ rw e (Any-left P c.matches (m ∷ []) h)
]

claim-All :
    (P : Match → Type 0) (m : Match) (c : Claims)
    → P m
    → All P c.matches
    → All P (claim m c).matches
claim-All P m c p h = elim (Bool-cases (is_claimed m c)) [
  | inl e ↦ rw e h
  | inr e ↦ rw e (All-append P c.matches (m ∷ []) h (p, tt))
]

claim_all-Any :
    (P : Match → Type 0) (ms : List Match) (c : Claims)
    → Any P c.matches
    → Any P (claim_all ms c).matches
unfolding claim_all
claim_all-Any P [] c h = h
claim_all-Any P (m ∷ ms) c h = claim_all-Any P ms (claim m c) (claim-Any P m c h)

pub claim_all-All :
    (P : Match → Type 0) (ms : List Match) (c : Claims)
    → All P ms
    → All P c.matches
    → All P (claim_all ms c).matches
unfolding claim_all
claim_all-All P [] c h k = k
claim_all-All P (m ∷ ms) c h k = claim_all-All P ms (claim m c) h.1 (claim-All P m c h.0 k)

pub claim_all-IsSound : (ms : List Match) (c : Claims) → IsSound c → IsSound (claim_all ms c)
unfolding claim_all
claim_all-IsSound [] c h = h
claim_all-IsSound (m ∷ ms) c h = claim_all-IsSound ms (claim m c) (claim-IsSound m c h)

behind :
    (m : Match) (c : Claims) (ns : List Match)
    → All (λ n. IsAtMost n.score m.score) ns
    → All (λ n. All (λ x. IsAtMost n.score x.score) c.matches) ns
    → All (λ n. All (λ x. IsAtMost n.score x.score) (claim m c).matches) ns
behind m c [] below k = tt
behind m c (n ∷ ns) below k =
    (claim-All (λ x. IsAtMost n.score x.score) m c below.0 k.0, behind m c ns below.1 k.1)

-- Every candidate of a list that descends is beaten in the end, if all earlier ones score as high.
claim_all-Beaten :
    (ms : List Match) (c : Claims)
    → IsSound c
    → IsDescending ms
    → All (λ m. All (λ x. IsAtMost m.score x.score) c.matches) ms
    → All (Beaten (claim_all ms c)) ms
unfolding claim_all
claim_all-Beaten [] c h d above = tt
claim_all-Beaten (m ∷ ms) c h d above = (
  claim_all-Any (Beats m.predicted_index m.truth_index m.score) ms (claim m c)
      (claim-Beaten m c h above.0),
  claim_all-Beaten ms (claim m c) (claim-IsSound m c h) d.1 (behind m c ms d.0 above.1),
)

-- A one-to-one matching of real pairs, in which no pair that overlaps is better than all that it
-- competes with.
pub record IsStable (ps ts : List Box) (m : Matching) : Type 0 where
  pub apart : AreApart m.matches
  pub real : All (IsCandidate 0 0 ps ts) m.matches
  pub best :
      (i j : ℕ) (p t : Box)
      → get_elem? ps i ≡ some p
      → get_elem? ts j ≡ some t
      → is_positive (iou p t) ≡ true
      → Any (Beats i j (iou p t)) m.matches

no_claims-IsSound : IsSound no_claims
no_claims-IsSound = record {
  tracks_predicted = λ i. (λ h. cc, λ h. tt);
  tracks_truth = λ i. (λ h. cc, λ h. tt);
  apart = tt;
}

none_above : (ms : List Match) → All (λ m. All {A = Match} (λ x. IsAtMost m.score x.score) []) ms
none_above [] = tt
none_above (m ∷ ms) = (tt, none_above ms)

pub match_all-IsStable : (ps ts : List Box) → IsStable ps ts (match_all ps ts)
unfolding match_all
match_all-IsStable ps ts =
    let ms = candidates_from 0 ps ts in
    record {
      apart = (claim_all-IsSound (sort ms) no_claims no_claims-IsSound).apart;
      real =
          claim_all-All (IsCandidate 0 0 ps ts) (sort ms) no_claims
            (sort-All (IsCandidate 0 0 ps ts) ms (candidates_from-All 0 ps ts)) tt;
      best = λ i j p t at on o.
          subst (λ n. Any (Beats n j (iou p t)) (claim_all (sort ms) no_claims).matches)
            (omega arith)
            (find_pair (Beaten (claim_all (sort ms) no_claims)) p t 0 i j ps ts
              (sort-back _ ms (
                claim_all-Beaten (sort ms) no_claims no_claims-IsSound (sort-IsDescending ms)
                  (none_above (sort ms))))
              at on o);
    }

-- A box that `as_box` accepts.
abbrev pub IsBox : Box → Type 0
IsBox b = (neg_part b.w ≡ 0) × (neg_part b.h ≡ 0)

pub as_boxes_lem : (bs : List Box) → All IsBox bs → as_boxes bs ≡ some bs
unfolding as_boxes
as_boxes_lem [] h = refl
as_boxes_lem (b ∷ bs) h =
    let accepted : as_box b ≡ some b = ground arith in rw (accepted, as_boxes_lem bs h.1) refl

-- Boxes without a negative extent are matched. The matches are pairs of a predicted and a true box
-- that overlap, each with its score, and no two of them share a box. It is the greedy matching: of
-- every pair that overlaps, a box is matched with a score at least as high.
pub match_boxes-IsStable :
    (predicted truth : List Box)
    → All IsBox predicted
    → All IsBox truth
    → (m : Matching) × (match_boxes predicted truth ≡ some m) × IsStable predicted truth m
unfolding match_boxes
match_boxes-IsStable predicted truth p t = (
  match_all predicted truth,
  rw (as_boxes_lem predicted p, as_boxes_lem truth t) refl,
  match_all-IsStable predicted truth,
)

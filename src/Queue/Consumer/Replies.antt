-- ===== src/Queue/Consumer/Replies.antt =====
-- How many entries the replies of a read hold, and how many tasks come of them.
use ocr_orchestrator.Common.{
  ℕ, zero, suc, ◌+◌, ◌/◌, ◌≤◌, ◌<◌, ◌≡◌, refl, max, inl, inr, ◌||◌, Bool-cases, Option, none, some,
  List, [], ◌∷◌, ◌++◌, arith, ltb, ◌==◌, if◌then◌else◌, length, length-append, map,
}
use ocr_orchestrator.Queue.Tasks.{Stream, lead, main, PageTask, Parsed, parsed, malformed, parse}
use ocr_orchestrator.Queue.Broker.{Broker, Documented, Entry}
use ocr_orchestrator.Queue.Streams.{
  Queue, Response, replied, no_group, refused, Fault, lost_group, other_error, Env, streams, lane,
  set_lane, sort_entry, flatten_lane, flatten_all,
}
use ocr_orchestrator.Queue.Consumer.{
  Answer, taken, answered, read_some, new_of, wait_lead, wait_both, read_main, mark_recovered,
  follow,
}

module _ {L : Type 0} (b : Broker L) (v : Env L) where
  flatten_lane_length :
      (s : Stream) (es : List Entry) (ts : List PageTask) (q : Queue L)
      → length (flatten_lane b v s es (ts, q)).0 ≤ length ts + length es
  unfolding flatten_lane
  flatten_lane_length s [] ts q = omega arith
  flatten_lane_length s ((i, f) ∷ es) ts q = sorted (parse s i f) (flatten_lane_length s es)
    where
      sorted :
          (p : Parsed PageTask)
          → ((us : List PageTask) (r : Queue L)
              → length (flatten_lane b v s es (us, r)).0 ≤ length us + length es)
          → length (flatten_lane b v s es (sort_entry b v s i f p (ts, q))).0
            ≤ length ts + suc (length es)
      sorted (parsed t) rest = omega (arith, rest (ts ++ (t ∷ [])) q, length-append ts (t ∷ []))
      sorted (malformed e) rest =
          omega (arith, rest ts (sort_entry b v s i f (malformed e) (ts, q)).1)

  pub flatten_all_length :
      (r : Answer) (ts : List PageTask) (q : Queue L)
      → length (flatten_all b v r (ts, q)).0 ≤ length ts + taken r
  unfolding flatten_all
  flatten_all_length [] ts q = omega arith
  flatten_all_length ((s, es) ∷ more) ts q =
      let x = flatten_lane b v s es (ts, q) in
      omega (arith, flatten_lane_length s es ts q, flatten_all_length more x.0 x.1)

pub taken-append : (r r' : Answer) → taken (r ++ r') ≡ taken r + taken r'
taken-append [] r' = omega arith
taken-append ((s, es) ∷ r) r' = omega (arith, taken-append r r')

pub mark_recovered_length : (ts : List PageTask) → length (mark_recovered ts) ≡ length ts
mark_recovered_length [] = refl
mark_recovered_length (t ∷ ts) = omega (arith, mark_recovered_length ts)

-- A reply of at most `n` entries, if it is one.
abbrev pub AtMost : {L : Type 0} → ℕ → Response Answer × Queue L → Type 0
AtMost n (replied r, q) = taken r ≤ n
AtMost n (no_group, q) = Unit {0}
AtMost n (refused, q) = Unit {0}

pub AtMost-mono :
    {L : Type 0} (m n : ℕ) (r : Response Answer × Queue L) → m ≤ n → AtMost m r → AtMost n r
AtMost-mono m n (replied r, q) le h = omega arith
AtMost-mono m n (no_group, q) le h = tt
AtMost-mono m n (refused, q) le h = tt

pub AtMost-follow :
    {L : Type 0} (m n : ℕ) (f : Answer → Queue L → Response Answer × Queue L)
    (r : Response Answer × Queue L)
    → AtMost m r
    → ((a : Answer) (q : Queue L) → taken a ≤ m → AtMost n (f a q))
    → AtMost n (follow f r)
AtMost-follow m n f (replied r, q) h k = k r q h
AtMost-follow m n f (no_group, q) h k = tt
AtMost-follow m n f (refused, q) h k = tt

module _ {L : Type 0} (b : Broker L) (docs : Documented b) (v : Env L) where
  one_lane :
      (fault : Option Fault) (at n : ℕ) (s : Stream) (q : Queue L)
      → 0 < n
      → AtMost n (answered b v fault (new_of b v at n s ∷ []) q)
  one_lane (some lost_group) at n s q h = tt
  one_lane (some other_error) at n s q h = tt
  one_lane none at n s q h = omega (arith, docs.read_new_count v.consumer n (v.now at) (lane s q) h)

  both_lanes :
      (fault : Option Fault) (at n : ℕ) (q : Queue L)
      → 0 < n
      → AtMost (n + n) (answered b v fault (map (new_of b v at n) streams) q)
  both_lanes (some lost_group) at n q h = tt
  both_lanes (some other_error) at n q h = tt
  both_lanes none at n q h =
      let after = set_lane lead (b.read_new v.consumer n (v.now at) q.lead_lane).1 q in
      omega (
        arith,
        docs.read_new_count v.consumer n (v.now at) q.lead_lane h,
        docs.read_new_count v.consumer n (v.now at) after.main_lane h,
      )

  pub read_one : (at n : ℕ) (s : Stream) (q : Queue L) → AtMost n (read_some b v at n (s ∷ []) q)
  read_one at zero s q = tt
  read_one at (suc n) s q = one_lane (v.fault at) at (suc n) s (v.meanwhile at q) (omega arith)

  read_both : (at n : ℕ) (q : Queue L) → AtMost (n + n) (read_some b v at n streams q)
  read_both at zero q = tt
  read_both at (suc n) q = both_lanes (v.fault at) at (suc n) (v.meanwhile at q) (omega arith)

  wait_lead_bound :
      (l block : ℕ) (found : Answer) (q : Queue L)
      → taken found ≤ l
      → AtMost l (wait_lead b v l block found q)
  wait_lead_bound l block found q h = elim (Bool-cases (ltb 0 (taken found) || (block == 0))) [
    | inl e ↦ rw e h
    | inr e ↦ rw e (read_one 2 l lead q)
  ]

  wait_both_bound :
      (n left block : ℕ) (found : Answer) (q : Queue L)
      → taken found ≤ n
      → (taken found ≡ 0 → max 1 (left / 2) + max 1 (left / 2) ≤ n)
      → AtMost n (wait_both b v left block found q)
  wait_both_bound n left block found q h k =
      elim (Bool-cases (ltb 0 (taken found) || (block == 0))) [
        | inl e ↦ rw e h
        | inr e ↦
            let share = max 1 (left / 2) in
            rw e (AtMost-mono (share + share) n _ (k (ground arith)) (read_both 2 share q))
      ]

  read_main_bound :
      (n left block : ℕ) (found : Answer) (q : Queue L)
      → taken found + left ≤ n
      → (taken found ≡ 0 → max 1 (left / 2) + max 1 (left / 2) ≤ n)
      → AtMost n (read_main b v left block found q)
  read_main_bound n left block found q h k =
      AtMost-follow left n (λ more. wait_both b v left block (found ++ more)) _
        (read_one 1 left main q)
        (λ more r le.
          wait_both_bound n left block (found ++ more) r (omega (arith, taken-append found more))
            (λ e. k (omega (arith, taken-append found more))))

  -- Both ways on from the lead lane.
  pub rest_bound :
      (n l left block lead_block : ℕ) (found : Answer) (q : Queue L)
      → l ≤ n
      → taken found ≤ l
      → taken found + left ≤ n
      → (0 < left → taken found ≡ 0 → max 1 (left / 2) + max 1 (left / 2) ≤ n)
      → AtMost n (
          (if left == 0 then wait_lead b v l lead_block found else read_main b v left block found)
            q)
  rest_bound n l left block lead_block found q le h k share = elim (Bool-cases (left == 0)) [
    | inl e ↦ rw e (AtMost-mono l n _ le (wait_lead_bound l lead_block found q h))
    | inr e ↦ rw e (read_main_bound n left block found q k (share (ground arith)))
  ]

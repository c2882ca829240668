-- ===== src/Queue/Consumer/Budgets.antt =====
-- How many tasks a read brings.
use mathlib.Core.Path.{subst}
use ocr_orchestrator.Common.{
  ℕ, zero, suc, ◌+◌, ◌-◌, ◌≤◌, ◌<◌, ◌≡◌, refl, min, true, ◌&&◌, Option, none, some, List, [], ◌∷◌,
  All, arith, ltb, lt→ltb, ◌==◌, if◌then◌else◌, length, inl, inr, Bool-cases,
}
use ocr_orchestrator.Queue.Tasks.{Stream, lead, main, PageTask}
use ocr_orchestrator.Queue.Broker.{Broker, Documented}
use ocr_orchestrator.Queue.Streams.{
  Queue, Response, replied, no_group, refused, Fault, lost_group, other_error, Env, lane, flatten,
}
use ocr_orchestrator.Queue.Consumer.{
  Answer, taken, read_lanes, read, read_own_pending, own_entries, mark_recovered, finish_read,
  finish_own, budget, read_some, answered, own_of, xreadgroup, return,
}
use ocr_orchestrator.Queue.Consumer.Replies.{
  AtMost, AtMost-follow, flatten_all_length, mark_recovered_length, read_one, rest_bound,
  taken-append,
}

-- A read that waits for both lanes asks each of them for one entry at least.
abbrev pub surplus : (lead_count main_count : ℕ) → ℕ
surplus l m = if (l == 0) && (m == 1) then 1 else 0

abbrev pub budget_of : Option ℕ → (lead_count main_count : ℕ) → ℕ
budget_of none l m = l + m + surplus l m
budget_of (some n) l m = n + surplus 0 n

mark_recovered-All : (ts : List PageTask) → All (λ t. t.recovered ≡ true) (mark_recovered ts)
mark_recovered-All [] = tt
mark_recovered-All (t ∷ ts) = (refl, mark_recovered-All ts)

abbrev Resumed : ℕ → Option (List PageTask) → Type 0
Resumed n none = Unit
Resumed n (some ts) = (length ts ≤ n) × All (λ t. t.recovered ≡ true) ts

module _ {L : Type 0} (b : Broker L) (docs : Documented b) (v : Env L) where
  probe_bound :
      (l : ℕ) (q : Queue L)
      → AtMost l ((if ltb 0 l then read_some b v 0 l (lead ∷ []) else return []) q)
  probe_bound zero q = omega arith
  probe_bound (suc l) q = rw (lt→ltb 0 (suc l) (omega arith)) (read_one b docs v 0 (suc l) lead q)

  read_lanes_bound :
      (count : Option ℕ) (l m block lead_block : ℕ) (q : Queue L)
      → AtMost
          (budget_of count l m)
          (read_lanes b v (budget count l) (budget count m) block count lead_block q)
  unfolding read_lanes
  read_lanes_bound none l m block lead_block q =
      AtMost-follow l (budget_of none l m) _ _ (probe_bound l q) (λ found r le.
        rest_bound b docs v (budget_of none l m) l m block lead_block found r (ground arith) le
          (ground arith) (λ p e. ground arith))
  read_lanes_bound (some n) l m block lead_block q =
      AtMost-follow n (budget_of (some n) l m) _ _ (probe_bound n q) (λ found r le.
        rest_bound b docs v (budget_of (some n) l m) n (min n (n - taken found)) block lead_block
          found r (ground arith) le (ground arith) (λ p e. ground arith))

  flattened :
      (n : ℕ) (r : Response Answer × Queue L) {ts : List PageTask}
      → AtMost n r
      → (finish_read b v r).0 ≡ some ts
      → length ts ≤ n
  flattened n (replied a, q) h e = ground (arith, flatten_all_length b v a [] q)
  flattened n (no_group, q) h e = ground arith
  flattened n (refused, q) h e = cc

  -- A read brings no more tasks than it asks for: `count` of them, or the two budgets together. One
  -- more is possible if the whole budget is one task (of the main lane, where each has its own).
  pub read_bound :
      (block : ℕ) (count : Option ℕ) (l m lead_block : ℕ) (q : Queue L) {ts : List PageTask}
      → (read b v block count l m lead_block q).0 ≡ some ts
      → length ts ≤ budget_of count l m
  unfolding read
  read_bound block count l m lead_block q e =
      flattened _ _ (read_lanes_bound count l m block lead_block q) e

  own_bound :
      (n : ℕ) (fault : Option Fault) (at : ℕ) (s : Stream) (q : Queue L)
      → 0 < n
      → AtMost n (answered b v fault (own_of b v at n s ∷ []) q)
  own_bound n (some lost_group) at s q h = tt
  own_bound n (some other_error) at s q h = tt
  own_bound n none at s q h =
      omega (arith, docs.read_own_count v.consumer n (v.now at) (lane s q) h)

  own_one :
      (at n : ℕ) (s : Stream) (q : Queue L)
      → AtMost n (xreadgroup b v at n (own_of b v at n s ∷ []) q)
  own_one at zero s q = tt
  own_one at (suc n) s q = own_bound (suc n) (v.fault at) at s (v.meanwhile at q) (omega arith)

  own_rest :
      (n : ℕ) (found : Answer) (q : Queue L)
      → taken found ≤ n
      → AtMost (n - taken found) (
          (if ltb (taken found) n
              then xreadgroup b v 1 (n - taken found) (own_of b v 1 (n - taken found) main ∷ [])
              else return [])
            q)
  own_rest n found q h = elim (Bool-cases (ltb (taken found) n)) [
    | inl e ↦ rw e (own_one 1 (n - taken found) main q)
    | inr e ↦ rw e (omega arith)
  ]

  own_entries_bound : (n : ℕ) (q : Queue L) → AtMost n (own_entries b v n q)
  own_entries_bound n q = AtMost-follow n n _ _ (own_one 0 n lead q) (λ found r le.
      AtMost-follow (n - taken found) n _ _ (own_rest n found r le)
        (λ more r' le'. omega (arith, taken-append found more)))

  recovered :
      (n : ℕ) (r : Response Answer × Queue L) {ts : List PageTask}
      → AtMost n r
      → (finish_own b v r).0 ≡ some ts
      → (length ts ≤ n) × All (λ t. t.recovered ≡ true) ts
  recovered n (replied a, q) h e =
      let f = flatten b v a q in
      subst (Resumed n) e (
        omega (arith, flatten_all_length b v a [] q, mark_recovered_length f.0),
        mark_recovered-All f.0,
      )
  recovered n (no_group, q) h e = cc
  recovered n (refused, q) h e = cc

  -- A worker that restarts resumes no more tasks than it asks for, over both lanes together, and each
  -- of them is marked as recovered.
  pub read_own_pending_bound :
      (count : ℕ) (q : Queue L) {ts : List PageTask}
      → (read_own_pending b v count q).0 ≡ some ts
      → (length ts ≤ count) × All (λ t. t.recovered ≡ true) ts
  unfolding read_own_pending
  read_own_pending_bound count q e = recovered count _ (own_entries_bound count q) e

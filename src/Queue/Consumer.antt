-- ===== src/Queue/Consumer.antt =====
-- app/queue/streams.py: `PageQueue`, its reads, its claims of orphans, its leases and its depth. The
-- accesses of a call are counted from 0; before each, `Env.meanwhile` tells what others did.
mod Replies
pub mod Budgets
pub mod Overshoot
pub mod Orphans
pub mod Quarantine
pub mod Settled
pub mod Leases
pub mod Renewals
use package.text.Mathlib.Text.{◌==◌ as str_eq}
use ocr_orchestrator.Common.{
  ℕ, zero, suc, ◌+◌, ◌-◌, ◌/◌, min, max, Bool, true, false, not, ◌&&◌, ◌||◌, Option, none, some,
  List, [], ◌∷◌, ◌++◌, String, ltb, ◌==◌, if◌then◌else◌, length, map,
}
use ocr_orchestrator.Queue.Tasks.{Fields, Stream, lead, main, PageTask, parse}
use ocr_orchestrator.Queue.Broker.{Broker, Entry, Row}
use ocr_orchestrator.Queue.Streams.{
  Queue, Response, replied, no_group, refused, Fault, lost_group, other_error, Env, streams, lane,
  set_lane, is_stream, ensure_group, sort_entry, flatten,
}

-- A chain of commands that may fail.
abbrev pub Action : (L A : Type 0) → Type 0
Action L A = Queue L → Response A × Queue L

module _ {L : Type 0} where
  abbrev pub return : {A : Type 0} → A → Action L A
  return a q = (replied a, q)

  abbrev pub follow :
      {A B : Type 0} → (A → Action L B) → Response A × Queue L → Response B × Queue L
  follow f (replied a, q) = f a q
  follow f (no_group, q) = (no_group, q)
  follow f (refused, q) = (refused, q)

  infixl 5 ◌>>=◌
  abbrev pub ◌>>=◌ : {A B : Type 0} → Action L A → (A → Action L B) → Action L B
  ◌>>=◌ m f q = follow f (m q)

abbrev pub Answer : Type 0
Answer = List (Stream × List Entry)

abbrev pub limited : (main_count taken : ℕ) → Option ℕ → ℕ
limited main_count taken none = main_count
limited main_count taken (some cap) = min main_count (cap - taken)

module _ {L : Type 0} (b : Broker L) (v : Env L) where
  -- One `XREADGROUP`; the client refuses a COUNT of 0.
  abbrev pub answered : Option Fault → List (Stream × (L → List Entry × L)) → Action L Answer
  answered (some lost_group) asks q = (no_group, q)
  answered (some other_error) asks q = (refused, q)
  answered none [] q = (replied [], q)
  answered none ((s, ask) ∷ asks) q =
      let r = ask (lane s q) in
      follow (λ more. return ((s, r.0) ∷ more)) (answered none asks (set_lane s r.1 q))

  abbrev pub new_of : (at count : ℕ) → Stream → Stream × (L → List Entry × L)
  new_of at count s = (s, b.read_new v.consumer count (v.now at))

  abbrev pub own_of : (at count : ℕ) → Stream → Stream × (L → List Entry × L)
  own_of at count s = (s, b.read_own v.consumer count (v.now at))

  abbrev pub xreadgroup : (at count : ℕ) → List (Stream × (L → List Entry × L)) → Action L Answer
  xreadgroup at zero asks q = (refused, q)
  xreadgroup at (suc n) asks q = answered (v.fault at) asks (v.meanwhile at q)

  abbrev pub read_some : (at count : ℕ) → List Stream → Action L Answer
  read_some at count ss = xreadgroup at count (map (new_of at count) ss)

abbrev pub budget : Option ℕ → ℕ → ℕ
budget none n = n
budget (some count) n = count

abbrev pub mark_recovered : List PageTask → List PageTask
mark_recovered [] = []
mark_recovered (t ∷ ts) = record t { recovered = true } ∷ mark_recovered ts

abbrev pub taken : Answer → ℕ
taken [] = 0
taken ((s, es) ∷ more) = length es + taken more

module _ {L : Type 0} (b : Broker L) (v : Env L) where
  -- `_read_lanes`. A read at 2 waits for the lead lane or for both.
  abbrev pub wait_lead : (lead_count lead_block_ms : ℕ) → Answer → Action L Answer
  wait_lead lead_count lead_block_ms lead_entries =
      if ltb 0 (taken lead_entries) || (lead_block_ms == 0)
      then return lead_entries
      else read_some b v 2 lead_count (lead ∷ [])

  abbrev pub wait_both : (main_count block_ms : ℕ) → Answer → Action L Answer
  wait_both main_count block_ms found =
      if ltb 0 (taken found) || (block_ms == 0)
      then return found
      else read_some b v 2 (max 1 (main_count / 2)) streams

  abbrev pub read_main : (main_count block_ms : ℕ) → Answer → Action L Answer
  read_main main_count block_ms lead_entries = do
    main_entries ← read_some b v 1 main_count (main ∷ [])
    wait_both main_count block_ms (lead_entries ++ main_entries)

  unfoldable pub read_lanes :
      (lead_count main_count block_ms : ℕ) → Option ℕ → (lead_block_ms : ℕ) → Action L Answer
  read_lanes lead_count main_count block_ms total_cap lead_block_ms = do
    lead_entries ← (if ltb 0 lead_count then read_some b v 0 lead_count (lead ∷ []) else return [])
    let left = limited main_count (taken lead_entries) total_cap
    if left == 0
        then wait_lead lead_count lead_block_ms lead_entries
        else read_main left block_ms lead_entries

  -- `read`; `none` is an error that is raised.
  abbrev pub finish_read : Response Answer × Queue L → Option (List PageTask) × Queue L
  finish_read (replied r, q) = let f = flatten b v r q in (some f.0, f.1)
  finish_read (no_group, q) = (some [], ensure_group b q)
  finish_read (refused, q) = (none, q)

  unfoldable pub read :
      (block_ms : ℕ)
      → Option ℕ
      → (lead_count main_count lead_block_ms : ℕ) → Queue L
      → Option (List PageTask) × Queue L
  unfolding read_lanes
  read block_ms count lead_count main_count lead_block_ms q = finish_read (
      read_lanes (budget count lead_count) (budget count main_count) block_ms count lead_block_ms q)

  -- `read_own_pending`
  abbrev pub own_entries : (count : ℕ) → Action L Answer
  own_entries count = do
    lead_entries ← xreadgroup b v 0 count (own_of b v 0 count lead ∷ [])
    let left = count - taken lead_entries
    main_entries ←
        (if ltb (taken lead_entries) count
          then xreadgroup b v 1 left (own_of b v 1 left main ∷ [])
          else return [])
    return (lead_entries ++ main_entries)

  abbrev pub finish_own : Response Answer × Queue L → Option (List PageTask) × Queue L
  finish_own (replied r, q) = let f = flatten b v r q in (some (mark_recovered f.0), f.1)
  finish_own (no_group, q) = (none, q)
  finish_own (refused, q) = (none, q)

  unfoldable pub read_own_pending : (count : ℕ) → Queue L → Option (List PageTask) × Queue L
  read_own_pending count q = finish_own (own_entries count q)

abbrev pub ids_on : Stream → List PageTask → List ℕ
ids_on s [] = []
ids_on s (t ∷ ts) = if is_stream t.stream s then t.entry_id ∷ ids_on s ts else ids_on s ts

abbrev pub lanes_from : Stream → List Stream
lanes_from lead = lead ∷ main ∷ []
lanes_from main = main ∷ lead ∷ []

abbrev pub order : List PageTask → List Stream
order [] = []
order (t ∷ ts) = lanes_from t.stream

module _ {L : Type 0} (b : Broker L) (v : Env L) where
  -- `claim_orphans`: the entries of one stream that are idle and not this consumer's, claimed if they
  -- are still as idle. The scan and the claim of the `n`-th stream are the accesses `2 n` and `2 n + 1`.
  abbrev pub foreign : List Row → List ℕ
  foreign [] = []
  foreign (r ∷ rows) =
      if str_eq r.consumer v.consumer then foreign rows else r.message_id ∷ foreign rows

  unfoldable pub sort_claimed :
      Stream → List Entry → List PageTask × Queue L → List PageTask × Queue L
  sort_claimed s [] r = r
  sort_claimed s ((i, []) ∷ es) r = sort_claimed s es r
  sort_claimed s ((i, kv ∷ f) ∷ es) r =
      sort_claimed s es (sort_entry b v s i (kv ∷ f) (parse s i (kv ∷ f)) r)

  abbrev pub claim_ids :
      (at min_idle_ms : ℕ) → Stream → List ℕ → List PageTask × Queue L → List PageTask × Queue L
  claim_ids at min_idle_ms s [] r = r
  claim_ids at min_idle_ms s (i ∷ ids) (ts, q) =
      let q' = v.meanwhile at q in
      let c = b.xclaim v.consumer min_idle_ms (v.now at) (i ∷ ids) (lane s q') in
      sort_claimed s c.0 (ts, set_lane s c.1 q')

  abbrev pub scan_lane : (at min_idle_ms count : ℕ) → Stream → Queue L → List ℕ
  scan_lane at min_idle_ms count s q =
      foreign (b.xpending_range min_idle_ms count (v.now at) (lane s q))

  abbrev pub claim_lane :
      (at min_idle_ms count : ℕ) → Stream → List PageTask × Queue L → List PageTask × Queue L
  claim_lane at min_idle_ms count s (ts, q) =
      let q' = v.meanwhile at q in
      claim_ids (suc at) min_idle_ms s (scan_lane at min_idle_ms count s q') (ts, q')

  unfoldable pub claim_orphans : (min_idle_ms count : ℕ) → Queue L → List PageTask × Queue L
  unfolding sort_claimed
  claim_orphans min_idle_ms count q =
      claim_lane 2 min_idle_ms count main (claim_lane 0 min_idle_ms count lead ([], q))

  -- `renew_leases`: one unconditional claim for each stream, in the order of their first tasks.
  abbrev pub renew_ids : (at : ℕ) → Stream → List ℕ → ℕ × Queue L → ℕ × Queue L
  renew_ids at s [] r = r
  renew_ids at s (i ∷ ids) (n, q) =
      let q' = v.meanwhile at q in
      let c = b.xclaim_just_id v.consumer 0 (v.now at) (i ∷ ids) (lane s q') in
      (n + length c.0, set_lane s c.1 q')

  unfoldable pub renew_lanes : (at : ℕ) → List PageTask → List Stream → ℕ × Queue L → ℕ × Queue L
  renew_lanes at ts [] r = r
  renew_lanes at ts (s ∷ ss) r = renew_lanes (suc at) ts ss (renew_ids at s (ids_on s ts) r)

  unfoldable pub renew_leases : List PageTask → Queue L → ℕ × Queue L
  unfolding renew_lanes
  renew_leases ts q = renew_lanes 0 ts (order ts) (0, q)

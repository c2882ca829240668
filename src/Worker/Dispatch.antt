-- ===== src/Worker/Dispatch.antt =====
-- app/worker/main.py: the dispatch loop of a worker, as turns: a read of the queue, or a page that
-- finishes. The sweep of orphaned documents is left out.
pub mod Resident
use ocr_orchestrator.Common.{
  ℕ, suc, ◌+◌, ◌-◌, min, max, Bool, true, false, not, ◌&&◌, Option, none, some, List, [], ◌∷◌, ltb,
  ◌==◌, if◌then◌else◌,
}
use ocr_orchestrator.Queue.Tasks.{Stream, lead, main, PageTask}
use ocr_orchestrator.Queue.Broker.{Broker}
use ocr_orchestrator.Queue.Streams.{Queue}
use ocr_orchestrator.Queue.Streams as Streams
use ocr_orchestrator.Queue.Consumer.{read, read_own_pending}
use ocr_orchestrator.Worker.Limits.{Settings}

-- `_in_flight` and `_lead_in_flight`
pub record Slots : Type 0 where
  pub in_flight : ℕ
  pub lead_in_flight : ℕ

-- `_spawn`
abbrev pub spawn : PageTask → Slots → Slots
spawn t s = record {
  in_flight = suc s.in_flight;
  lead_in_flight = elim t.stream [ lead ↦ suc s.lead_in_flight | main ↦ s.lead_in_flight ];
}

unfoldable pub spawn_all : List PageTask → Slots → Slots
spawn_all [] s = s
spawn_all (t ∷ ts) s = spawn_all ts (spawn t s)

-- A page that is done: the `finally` of `_handle`, and `_reap`.
abbrev pub release : Stream → Slots → Slots
release lead s = record { in_flight = s.in_flight - 1; lead_in_flight = s.lead_in_flight - 1 }
release main s = record s { in_flight = s.in_flight - 1 }

-- The budgets of a read.
abbrev pub capacity : Settings → Slots → ℕ
capacity c s = c.worker_concurrency - s.in_flight

abbrev pub lead_reserve : Settings → ℕ
lead_reserve c = min c.worker_lead_reserve (c.worker_concurrency - 1)

abbrev pub lead_budget : Settings → Slots → ℕ
lead_budget c s = lead_reserve c - s.lead_in_flight

abbrev pub lead_count : Settings → Slots → ℕ
lead_count c s = min (lead_budget c s) (capacity c s)

abbrev pub main_budget : Settings → Slots → ℕ
main_budget c s = min c.worker_prefetch (capacity c s - lead_budget c s)

abbrev pub shared_count : Settings → Slots → ℕ
shared_count c s = min c.worker_prefetch (capacity c s)

module _ {L : Type 0} (b : Broker L) (c : Settings) where
  abbrev pub read_tasks : Streams.Env L → Slots → Queue L → Option (List PageTask) × Queue L
  read_tasks e s q =
      if lead_reserve c == 0
      then read b e c.worker_block_ms (some (shared_count c s)) 0 0 0 q
      else read b e c.worker_block_ms none (lead_count c s) (main_budget c s) c.worker_lead_poll_ms
          q

  abbrev pub spawned : Slots → Option (List PageTask) × Queue L → Option (Slots × Queue L)
  spawned s (none, q) = none
  spawned s (some ts, q) = some (spawn_all ts s, q)

  -- One read of the loop; `none` is an error that ends it.
  abbrev pub poll : Bool → Streams.Env L → Slots → Queue L → Option (Slots × Queue L)
  poll stopping e s q =
      if ltb 0 (capacity c s) && not stopping then spawned s (read_tasks e s q) else some (s, q)

  -- The start: this worker's own pending tasks.
  unfoldable pub start : Streams.Env L → Queue L → Option (Slots × Queue L)
  unfolding spawn_all
  start e q =
      spawned (record { in_flight = 0; lead_in_flight = 0 })
        (read_own_pending b e c.worker_concurrency q)

-- What happens in the loop.
pub data Turn (L : Type 0) : Type 0 where
  polls : (stopping : Bool) → Streams.Env L → Turn L
  finishes : Stream → Turn L

module _ {L : Type 0} (b : Broker L) (c : Settings) where
  abbrev pub turn : Turn L → Slots × Queue L → Option (Slots × Queue L)
  turn (polls stopping e) (s, q) = poll b c stopping e s q
  turn (finishes stream) (s, q) = some (release stream s, q)

  abbrev pub next :
      (Slots × Queue L → Option (Slots × Queue L))
      → Option (Slots × Queue L)
      → Option (Slots × Queue L)
  next f none = none
  next f (some x) = f x

  unfoldable pub run : List (Turn L) → Option (Slots × Queue L) → Option (Slots × Queue L)
  unfolding spawn_all
  run [] x = x
  run (t ∷ ts) x = run ts (next (turn t) x)

-- ===== src/Worker/Dispatch/Resident.antt =====
-- How many pages a worker holds.
use ocr_orchestrator.Common.{
  ℕ, suc, ◌+◌, ◌≤◌, ◌<◌, ◌≡◌, refl, Bool, not, ◌&&◌, Option, none, some, List, [], ◌∷◌, ltb, ◌==◌,
  if◌then◌else◌, length, arith, Bool-cases, inl, inr,
}
use ocr_orchestrator.Queue.Tasks.{Stream, lead, main, PageTask}
use ocr_orchestrator.Queue.Broker.{Broker, Documented}
use ocr_orchestrator.Queue.Streams.{Queue}
use ocr_orchestrator.Queue.Streams as Streams
use ocr_orchestrator.Queue.Consumer.Budgets.{read_bound, read_own_pending_bound}
use ocr_orchestrator.Worker.Limits.{Settings}
use ocr_orchestrator.Worker.Dispatch.{
  Slots, spawn, spawn_all, release, capacity, lead_reserve, lead_count, main_budget, shared_count,
  read_tasks, spawned, poll, start, Turn, polls, finishes, turn, next, run,
}

spawn_all-in_flight :
    (ts : List PageTask) (s : Slots) → (spawn_all ts s).in_flight ≡ length ts + s.in_flight
unfolding spawn_all
spawn_all-in_flight [] s = omega arith
spawn_all-in_flight (t ∷ ts) s = omega (arith, spawn_all-in_flight ts (spawn t s))

-- At most `n` pages are held.
abbrev pub Holding : {L : Type 0} → ℕ → Option (Slots × Queue L) → Type 0
Holding n none = Unit
Holding n (some (s, q)) = s.in_flight ≤ n

-- A poll asks for a positive number of tasks, and for no more than there is room for. An idle worker
-- reads the main lane whatever is reserved, and a worker that asks nothing of the main lane asks the
-- lead lane.
pub budgets_lem :
    (c : Settings) (s : Slots)
    → 0 < c.worker_prefetch
    → 0 < capacity c s
    → (0 < lead_count c s + main_budget c s)
      × (lead_count c s + main_budget c s ≤ capacity c s)
      × (0 < shared_count c s)
      × (shared_count c s ≤ capacity c s)
      × (main_budget c s ≡ 0 → 0 < lead_count c s)
      × (s.in_flight ≡ 0 → s.lead_in_flight ≡ 0 → 0 < main_budget c s)
budgets_lem c s p k =
    (omega arith, omega arith, omega arith, omega arith, λ e. omega arith, λ e f. omega arith)

module _ {L : Type 0} (b : Broker L) (docs : Documented b) (c : Settings) where
  spawned-Holding :
      (n m : ℕ) (s : Slots) (r : Option (List PageTask) × Queue L)
      → ((ts : List PageTask) → r.0 ≡ some ts → length ts ≤ m)
      → m + s.in_flight ≤ n
      → Holding n (spawned b c s r)
  spawned-Holding n m s (none, q) h le = tt
  spawned-Holding n m s (some ts, q) h le = omega (arith, spawn_all-in_flight ts s, h ts refl)

  read_tasks_bound :
      (e : Streams.Env L) (s : Slots) (q : Queue L)
      → 0 < capacity c s
      → (ts : List PageTask) → (read_tasks b c e s q).0 ≡ some ts
      → length ts ≤ capacity c s + (if capacity c s == 1 then 1 else 0)
  read_tasks_bound e s q room ts h = elim (Bool-cases (lead_reserve c == 0)) [
    | inl none_reserved ↦
        let r =
          read_bound b docs e c.worker_block_ms (some (shared_count c s)) 0 0 0 q
            (rw none_reserved at h) in
        ground (arith, r)
    | inr some_reserved ↦
        let r =
          read_bound b docs e c.worker_block_ms none (lead_count c s) (main_budget c s)
            c.worker_lead_poll_ms q (rw some_reserved at h) in
        ground (arith, r)
  ]

  poll-Holding :
      (stopping : Bool) (e : Streams.Env L) (s : Slots) (q : Queue L)
      → s.in_flight ≤ suc c.worker_concurrency
      → Holding (suc c.worker_concurrency) (poll b c stopping e s q)
  poll-Holding stopping e s q h = elim (Bool-cases (ltb 0 (capacity c s) && not stopping)) [
    | inl asks ↦
        let room : 0 < capacity c s = ground arith in
        rw asks (
          spawned-Holding (suc c.worker_concurrency)
            (capacity c s + (if capacity c s == 1 then 1 else 0)) s (read_tasks b c e s q)
            (read_tasks_bound e s q room) (ground arith))
    | inr idle ↦ rw idle h
  ]

  release-le : (x : Stream) (s : Slots) (n : ℕ) → s.in_flight ≤ n → (release x s).in_flight ≤ n
  release-le lead s n h = omega arith
  release-le main s n h = omega arith

  next-Holding :
      (t : Turn L) (x : Option (Slots × Queue L))
      → Holding (suc c.worker_concurrency) x
      → Holding (suc c.worker_concurrency) (next b c (turn b c t) x)
  next-Holding t none h = tt
  next-Holding (polls stopping e) (some (s, q)) h = poll-Holding stopping e s q h
  next-Holding (finishes x) (some (s, q)) h = release-le x s (suc c.worker_concurrency) h

  run-Holding :
      (ts : List (Turn L)) (x : Option (Slots × Queue L))
      → Holding (suc c.worker_concurrency) x
      → Holding (suc c.worker_concurrency) (run b c ts x)
  unfolding run
  run-Holding [] x h = h
  run-Holding (t ∷ ts) x h = run-Holding ts _ (next-Holding t x h)

  start-Holding : (e : Streams.Env L) (q : Queue L) → Holding c.worker_concurrency (start b c e q)
  unfolding start
  start-Holding e q =
      spawned-Holding c.worker_concurrency c.worker_concurrency _ _
        (λ ts h. (read_own_pending_bound b docs e c.worker_concurrency q h).0) (omega arith)

  Holding-mono : (m n : ℕ) (x : Option (Slots × Queue L)) → m ≤ n → Holding m x → Holding n x
  Holding-mono m n none le h = tt
  Holding-mono m n (some (s, q)) le h = omega arith

  -- A worker starts with at most `worker_concurrency` pages of its own pending list. After any reads
  -- and any pages that finish, it holds at most one page more than `worker_concurrency`.
  pub run_resident :
      (e : Streams.Env L) (q : Queue L) (ts : List (Turn L))
      → Holding c.worker_concurrency (start b c e q)
        × Holding (suc c.worker_concurrency) (run b c ts (start b c e q))
  run_resident e q ts =
      let first = start-Holding e q in
      (
        first,
        run-Holding ts _ (
            Holding-mono c.worker_concurrency (suc c.worker_concurrency) (start b c e q)
              (omega arith) first),
      )

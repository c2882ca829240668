-- ===== src/RateLimit/Breaker/Circuit.antt =====
-- When the circuit of app/ratelimit/breaker.py is open, and how it closes again.
use mathlib.Core.Path.{subst}
use ocr_orchestrator.Common.{
  ℕ, ◌+◌, ◌*◌, ◌≤◌, ◌<◌, ◌≡◌, sym, ◌≢◌, true, false, some, List, [], ◌∷◌, length, arith, leb,
  if◌then◌else◌,
}
use ocr_orchestrator.RateLimit.Breaker.{
  BreakerState, closed, open_circuit, half_open, Config, is_valid, Breaker, Op, allow, peek,
  success, failure, run, trips,
}

-- While the cooldown lasts, no call but a failure changes the state or the time of opening, none
-- lets a request through, and the wait that a refusal names is positive and reaches its end.
pub open_refuses :
    (g : Config) (now : ℕ) (b : Breaker)
    → b.state ≡ open_circuit
    → now ≤ b.expires_at
    → now < b.opened_at + g.cooldown
    → let v = (run g allow now (some b)).0 in
      (v.allowed ≡ false)
      × (0 < v.retry_after_ms)
      × (b.opened_at + g.cooldown ≤ now + 1000 * v.retry_after_ms)
      × ((op : Op) → (run g op now (some b)).0.state ≡ open_circuit)
      × ((op : Op) → op ≢ failure → (run g op now (some b)).1.opened_at ≡ b.opened_at)
unfolding run
open_refuses g now b s alive hot =
    (ground arith, ground arith, ground arith, (λ op. ground arith), (λ op n. ground arith))

-- A count of the window as a call at `now` finds it: 0 if the window is over.
abbrev pub in_window : Config → ℕ → Breaker → ℕ → ℕ
in_window g now b n = if leb (b.window_start + g.window) now then 0 else n

-- The calls of the window with the one that is reported, and the failures among them if it failed.
abbrev pub calls_now : Config → ℕ → Breaker → ℕ
calls_now g now b = in_window g now b b.failures + in_window g now b b.successes + 1

abbrev pub failures_now : Config → ℕ → Breaker → ℕ
failures_now g now b = in_window g now b b.failures + 1

-- Enough calls in the window, and the failures among them at or over the ratio.
abbrev pub IsTripped : Config → ℕ → Breaker → Type 0
IsTripped g now b =
    (g.min_volume ≤ calls_now g now b)
    × (g.ratio_num * calls_now g now b ≤ failures_now g now b * g.ratio_den)

-- What must hold for one call on the breaker `b` to end in the state `s`.
pub record Move (g : Config) (op : Op) (now : ℕ) (b : Breaker) (s : BreakerState) : Type 0 where
  pub leaves_closed : b.state ≡ closed → s ≢ closed → (s ≡ open_circuit) × (op ≡ failure)
  pub trips_in_window : b.state ≡ closed → s ≢ closed → IsTripped g now b
  pub trips_at_once : b.state ≡ closed → op ≡ failure → IsTripped g now b → s ≡ open_circuit
  pub leaves_open : b.state ≡ open_circuit → s ≢ open_circuit → b.opened_at + g.cooldown ≤ now
  pub closes :
      b.state ≡ half_open → s ≡ closed → (op ≡ success) × (g.probe_successes ≤ b.probe_ok + 1)
  pub reopens : b.state ≡ half_open → s ≡ open_circuit → op ≡ failure

-- A call on a live key leaves CLOSED only for OPEN, and only by a failure that finds enough calls in
-- the window that is under way and, with itself, the failures among them at or over the ratio; such a
-- failure always opens the circuit. A window that is over counts for nothing. A call leaves OPEN only
-- when the cooldown is over; and it leaves HALF_OPEN for CLOSED only by the last of the probe successes
-- that are asked for, and for OPEN only by a failure.
pub run-Move :
    (g : Config) (op : Op) (now : ℕ) (b : Breaker)
    → now ≤ b.expires_at
    → Move g op now b (run g op now (some b)).0.state
unfolding run
run-Move g op now b alive = record {
  leaves_closed = ground arith;
  trips_in_window = ground arith;
  trips_at_once = ground arith;
  leaves_open = ground arith;
  closes = ground arith;
  reopens = ground arith;
}

-- A caller that was refused by an open circuit, waits as long as it was told and finds no other
-- call made meanwhile, is let through.
pub hint_enough :
    (g : Config) (now later : ℕ) (b : Breaker)
    → is_valid g ≡ true
    → b.state ≡ open_circuit
    → now ≤ b.expires_at
    → (run g allow now (some b)).0.allowed ≡ false
    → now + 1000 * (run g allow now (some b)).0.retry_after_ms ≤ later
    → later ≤ now + g.ttl
    → (run g allow later (some (run g allow now (some b)).1)).0.allowed ≡ true
unfolding run
hint_enough g now later b valid s alive refused waited kept = ground arith

-- What `peek` reports of a live key is what `allow` would decide, and `peek` takes no probe slot.
pub peek-allow :
    (g : Config) (now : ℕ) (b : Breaker)
    → let p = run g peek now (some b) in
      let a = run g allow now (some b) in
      (p.0.allowed ≡ a.0.allowed)
      × (p.0.state ≡ a.0.state)
      × (p.1.probes ≤ b.probes)
      × (run g allow now (some p.1) ≡ a)
unfolding run
peek-allow g now b = (ground arith, ground arith, ground arith, ground arith)

-- A failure reported while the circuit is open, from a request that was under way when it opened,
-- starts the cooldown anew whenever the counts are still over the threshold.
pub open_failure_restarts :
    (g : Config) (now : ℕ) (b : Breaker)
    → b.state ≡ open_circuit
    → now ≤ b.expires_at
    → now < b.opened_at + g.cooldown
    → trips g (b.failures + 1) b.successes ≡ true
    → let r = (run g failure now (some b)).1 in (r.opened_at ≡ now) × (r.failures ≡ b.failures + 1)
unfolding run
open_failure_restarts g now b s alive hot over = ground arith

-- Successes reported at the given times, each before the key has run out.
abbrev pub after_successes : Config → List ℕ → Breaker → Breaker
after_successes g [] b = b
after_successes g (t ∷ ts) b = after_successes g ts (run g success t (some b)).1

abbrev pub InTime : Config → ℕ → List ℕ → Type 0
InTime g until [] = Unit
InTime g until (t ∷ ts) = (t ≤ until) × InTime g (t + g.ttl) ts

success_step :
    (g : Config) (now : ℕ) (b : Breaker)
    → b.state ≡ half_open
    → now ≤ b.expires_at
    → b.probe_ok + 1 < g.probe_successes
    → let r = (run g success now (some b)).1 in
      (r.state ≡ half_open) × (r.probe_ok ≡ b.probe_ok + 1) × (r.expires_at ≡ now + g.ttl)
unfolding run
success_step g now b s alive more = ground arith

last_success :
    (g : Config) (now : ℕ) (b : Breaker)
    → b.state ≡ half_open
    → now ≤ b.expires_at
    → b.probe_ok + 1 ≡ g.probe_successes
    → let r = (run g success now (some b)).1 in
      (r.state ≡ closed) × (r.failures ≡ 0) × (r.successes ≡ 0) × (r.window_start ≡ now)
unfolding run
last_success g now b s alive enough = ground arith

-- The reports of as many successes as are missing close a half-open breaker and clear its counts.
pub recovers :
    (g : Config) (t : ℕ) (ts : List ℕ) (b : Breaker)
    → b.state ≡ half_open
    → InTime g b.expires_at (t ∷ ts)
    → b.probe_ok + length (t ∷ ts) ≡ g.probe_successes
    → let r = after_successes g (t ∷ ts) b in
      (r.state ≡ closed) × (r.failures ≡ 0) × (r.successes ≡ 0)
recovers g t [] b s alive enough =
    let last = last_success g t b s alive.0 (omega arith) in (last.0, last.1, last.2)
recovers g t (u ∷ ts) b s alive enough =
    let step = success_step g t b s alive.0 (omega arith) in
    recovers g u ts (run g success t (some b)).1 step.0
      (subst (λ e. InTime g e (u ∷ ts)) (sym step.2) alive.1) (omega (arith, step.1))

-- ===== src/RateLimit/Breaker/Probes.antt =====
-- The probes of a HALF_OPEN breaker, app/ratelimit/breaker.py.
use mathlib.Core.Path.{subst}
use ocr_orchestrator.Common.{
  ℕ, ◌+◌, ◌≤◌, ◌<◌, ◌≡◌, refl, sym, true, Option, none, some, List, [], ◌∷◌, arith, if◌then◌else◌,
  ◌≢◌,
}
use ocr_orchestrator.RateLimit.Breaker.{
  half_open, Config, is_valid, Breaker, Op, allow, peek, success, failure, touch, Verdict, run,
}

-- What every stored hash satisfies: the probe counters are used in HALF_OPEN only, and within bounds.
pub record IsBounded (g : Config) (b : Breaker) : Type 0 where
  pub within : b.probes ≤ g.max_probes
  pub unfinished : b.probe_ok < g.probe_successes
  pub unused : b.state ≢ half_open → (b.probes ≡ 0) × (b.probe_ok ≡ 0)

abbrev pub KeyIsBounded : Config → Option Breaker → Type 0
KeyIsBounded g none = Unit
KeyIsBounded g (some b) = IsBounded g b

touch-IsBounded :
    (g : Config) (now : ℕ) (key : Option Breaker)
    → is_valid g ≡ true
    → KeyIsBounded g key
    → IsBounded g (touch g now key)
unfolding touch
touch-IsBounded g now none valid k = ground arith
touch-IsBounded g now (some b) valid k = ground arith

-- Every call, on any key that earlier calls left, keeps the probe counters within their bounds.
pub run-IsBounded :
    (g : Config) (op : Op) (now : ℕ) (key : Option Breaker)
    → is_valid g ≡ true
    → KeyIsBounded g key
    → IsBounded g (run g op now key).1
unfolding run
run-IsBounded g op now key valid k = ground arith

-- A sequence of calls, each an operation at a time.
abbrev pub history : Config → List (Op × ℕ) → Breaker → Breaker
history g [] b = b
history g ((op, now) ∷ rest) b = history g rest (run g op now (some b)).1

-- The key stays alive and the breaker half-open from call to call.
abbrev pub StaysHalf : Config → List (Op × ℕ) → Breaker → Type 0
StaysHalf g [] b = Unit
StaysHalf g ((op, now) ∷ rest) b =
    (now ≤ b.expires_at)
    × ((run g op now (some b)).0.state ≡ half_open)
    × StaysHalf g rest (run g op now (some b)).1

abbrev pub admitted : Op → Verdict → ℕ
admitted allow v = if v.allowed then 1 else 0
admitted _ v = 0

abbrev pub reported : Op → ℕ
reported success = 1
reported _ = 0

unfoldable pub admissions : Config → List (Op × ℕ) → Breaker → ℕ
admissions g [] b = 0
admissions g ((op, now) ∷ rest) b =
    let r = run g op now (some b) in admitted op r.0 + admissions g rest r.1

pub successes_in : List (Op × ℕ) → ℕ
successes_in [] = 0
successes_in ((op, now) ∷ rest) = reported op + successes_in rest

probe_step :
    (g : Config) (op : Op) (now : ℕ) (b : Breaker)
    → b.state ≡ half_open
    → now ≤ b.expires_at
    → (run g op now (some b)).0.state ≡ half_open
    → let r = run g op now (some b) in
      (r.1.state ≡ half_open)
      × (b.probes + admitted op r.0 ≤ r.1.probes + reported op)
      × (b.probes ≤ g.max_probes → r.1.probes ≤ g.max_probes)
unfolding run
probe_step g allow now b s alive half = ground arith
probe_step g peek now b s alive half = ground arith
probe_step g success now b s alive half = ground arith
probe_step g failure now b s alive half = ground arith

history_from :
    (g : Config) (calls : List (Op × ℕ)) (b : Breaker)
    → b.state ≡ half_open
    → b.probes ≤ g.max_probes
    → StaysHalf g calls b
    → (b.probes + admissions g calls b ≤ (history g calls b).probes + successes_in calls)
      × ((history g calls b).probes ≤ g.max_probes)
unfolding admissions successes_in
history_from g [] b s within stays = (omega arith, within)
history_from g ((op, now) ∷ rest) b s within stays =
    let step = probe_step g op now b s stays.0 stays.1 in
    let later = history_from g rest (run g op now (some b)).1 step.0 (step.2 within) stays.2 in
    (omega (arith, step.1, later.0), later.1)

-- As long as the breaker stays half-open, over the calls of all replicas, the slots that are taken at
-- first and the requests that are admitted are at most the slots taken at the end, which are no more
-- than max_probes, and the success reports. Each report counts, whichever request it is of.
pub probes_limited :
    (g : Config) (calls : List (Op × ℕ)) (b : Breaker)
    → b.state ≡ half_open
    → b.probes ≤ g.max_probes
    → StaysHalf g calls b
    → (b.probes + admissions g calls b ≤ (history g calls b).probes + successes_in calls)
      × ((history g calls b).probes ≤ g.max_probes)
      × (b.probes + admissions g calls b ≤ g.max_probes + successes_in calls)
probes_limited g calls b s within stays =
    let h = history_from g calls b s within stays in (h.0, h.1, omega (arith, h.0, h.1))

-- Calls that only ask, each before the key that the one before wrote has run out.
abbrev pub Asks : Config → ℕ → List (Op × ℕ) → Type 0
Asks g until [] = Unit
Asks g until ((op, now) ∷ rest) = (op ≡ allow) × (now ≤ until) × Asks g (now + g.ttl) rest

lost_step :
    (g : Config) (op : Op) (now : ℕ) (b : Breaker)
    → op ≡ allow
    → b.state ≡ half_open
    → b.probes ≡ g.max_probes
    → now ≤ b.expires_at
    → let r = run g op now (some b) in
      (admitted op r.0 ≡ 0)
      × (r.1.state ≡ half_open)
      × (r.1.probes ≡ g.max_probes)
      × (r.1.expires_at ≡ now + g.ttl)
unfolding run
lost_step g allow now b o s full alive = ground arith
lost_step g peek now b o s full alive = ground arith
lost_step g success now b o s full alive = ground arith
lost_step g failure now b o s full alive = ground arith

-- The slots of probes whose outcome is never reported are not given back: once they are all taken,
-- the breaker refuses every request for as long as requests keep coming.
pub lost_probes :
    (g : Config) (calls : List (Op × ℕ)) (b : Breaker)
    → b.state ≡ half_open
    → b.probes ≡ g.max_probes
    → Asks g b.expires_at calls
    → (admissions g calls b ≡ 0) × ((history g calls b).state ≡ half_open)
unfolding admissions
lost_probes g [] b s full asks = (refl, s)
lost_probes g ((op, now) ∷ rest) b s full asks =
    let step = lost_step g op now b asks.0 s full asks.1 in
    let more = subst (λ t. Asks g t rest) (sym step.3) asks.2 in
    let after = lost_probes g rest (run g op now (some b)).1 step.1 step.2 more in
    (omega (arith, step.0, after.0), after.1)

pub allow_half :
    (g : Config) (now : ℕ) (b : Breaker)
    → b.state ≡ half_open
    → now ≤ b.expires_at
    → (run g allow now (some b)).0.allowed ≡ true
    → (run g allow now (some b)).1 ≡ record b { probes = b.probes + 1; expires_at = now + g.ttl }
unfolding run
allow_half g now b half alive allowed = ground arith

-- ===== src/RateLimit/Breaker.antt =====
-- app/ratelimit/breaker.py: the script behind `CircuitBreaker`. Times and durations are in
-- microseconds, the resolution of TIME, so the millisecond fractions of the script are exact. The
-- failure ratio is a fraction, and the division of the script is multiplied out.
pub mod Probes
pub mod Circuit
use ocr_orchestrator.Common.{
  ℕ, ◌+◌, ◌-◌, ◌*◌, ◌/◌, Bool, true, false, ◌&&◌, Option, none, some, ltb, leb, if◌then◌else◌,
}

pub data BreakerState : Type 0 where
  closed open_circuit half_open : BreakerState

pub record Config : Type 0 where
  pub window : ℕ
  pub min_volume : ℕ
  pub ratio_num : ℕ
  pub ratio_den : ℕ
  pub cooldown : ℕ
  pub max_probes : ℕ
  pub probe_successes : ℕ
  pub ttl : ℕ

-- The checks of `__init__`, whose failures raise ValueError.
abbrev pub is_valid : Config → Bool
is_valid g =
    (ltb 0 g.ratio_num && leb g.ratio_num g.ratio_den)
    && (leb 1 g.min_volume && (leb 1 g.max_probes && leb 1 g.probe_successes))

pub init : Config → Option Config
init g = if is_valid g then some g else none

-- The hash at the breaker's key.
pub record Breaker : Type 0 where
  pub state : BreakerState
  pub window_start : ℕ
  pub failures : ℕ
  pub successes : ℕ
  pub opened_at : ℕ
  pub probes : ℕ
  pub probe_ok : ℕ
  pub expires_at : ℕ

pub data Op : Type 0 where
  allow peek success failure : Op

-- The defaults for a key that is missing.
abbrev pub fresh : ℕ → Breaker
fresh now = record {
  state = closed;
  window_start = now;
  failures = 0;
  successes = 0;
  opened_at = 0;
  probes = 0;
  probe_ok = 0;
  expires_at = now;
}

-- HMGET, by a server that drops a key whose time has passed.
abbrev pub load : ℕ → Option Breaker → Breaker
load now none = fresh now
load now (some b) = if leb now b.expires_at then b else fresh now

-- A CLOSED breaker starts a new window when the old one is over.
abbrev pub roll_state : BreakerState → Config → ℕ → Breaker → Breaker
roll_state closed g now b =
    if leb (b.window_start + g.window) now
    then record b { window_start = now; failures = 0; successes = 0 }
    else b
roll_state open_circuit g now b = b
roll_state half_open g now b = b

-- An OPEN breaker turns HALF_OPEN when its cooldown is over.
abbrev pub cool_state : BreakerState → Config → ℕ → Breaker → Breaker
cool_state closed g now b = b
cool_state open_circuit g now b =
    if leb (b.opened_at + g.cooldown) now
    then record b { state = half_open; probes = 0; probe_ok = 0 }
    else b
cool_state half_open g now b = b

-- What every call does first.
unfoldable pub touch : Config → ℕ → Option Breaker → Breaker
touch g now key =
    let b = load now key in
    let rolled = roll_state b.state g now b in cool_state rolled.state g now rolled

-- The hash, `allowed`, and `retry_after_ms`.
pub record Decision : Type 0 where
  pub after : Breaker
  pub allowed : Bool
  pub retry_after_ms : ℕ

abbrev decide : Breaker → Bool → ℕ → Decision
decide b ok wait = record { after = b; allowed = ok; retry_after_ms = wait }

-- The rest of the cooldown in milliseconds, rounded up, and 0 where it is over.
abbrev pub cooldown_left : Config → ℕ → Breaker → ℕ
cooldown_left g now b = (b.opened_at + g.cooldown - now + 999) / 1000

abbrev pub on_allow : BreakerState → Config → ℕ → Breaker → Decision
on_allow closed g now b = decide b true 0
on_allow open_circuit g now b = decide b false (cooldown_left g now b)
on_allow half_open g now b =
    if ltb b.probes g.max_probes
    then decide (record b { probes = b.probes + 1 }) true 0
    else decide b false ((g.cooldown + 3999) / 4000)

abbrev pub on_peek : BreakerState → Config → ℕ → Breaker → Decision
on_peek closed g now b = decide b true 0
on_peek open_circuit g now b = decide b false (cooldown_left g now b)
on_peek half_open g now b = decide b (ltb b.probes g.max_probes) 0

abbrev pub count_success : Breaker → Breaker
count_success b = record b { successes = b.successes + 1 }

abbrev pub on_success : BreakerState → Config → ℕ → Breaker → Decision
on_success closed g now b = decide (count_success b) true 0
on_success open_circuit g now b = decide (count_success b) true 0
on_success half_open g now b =
    if leb g.probe_successes (b.probe_ok + 1)
    then decide
        (record b {
          state = closed;
          window_start = now;
          failures = 0;
          successes = 0;
          probes = 0;
          probe_ok = 0;
        })
        true 0
    else decide (record b { probes = b.probes - 1; probe_ok = b.probe_ok + 1 }) true 0

abbrev pub opened : Config → ℕ → Breaker → Decision
opened g now b =
    decide (record b { state = open_circuit; opened_at = now; probes = 0; probe_ok = 0 }) false
      (g.cooldown / 1000)

-- `total >= min_volume and failures / total >= failure_ratio`
abbrev pub trips : Config → ℕ → ℕ → Bool
trips g failures successes =
    leb g.min_volume (failures + successes)
    && leb (g.ratio_num * (failures + successes)) (failures * g.ratio_den)

abbrev pub count_failure : Config → ℕ → Breaker → Decision
count_failure g now b =
    let counted = record b { failures = b.failures + 1 } in
    if trips g (b.failures + 1) b.successes then opened g now counted else decide counted false 0

abbrev pub on_failure : BreakerState → Config → ℕ → Breaker → Decision
on_failure closed g now b = count_failure g now b
on_failure open_circuit g now b = count_failure g now b
on_failure half_open g now b = opened g now b

abbrev pub dispatch : Op → Config → ℕ → Breaker → Decision
dispatch allow g now b = on_allow b.state g now b
dispatch peek g now b = on_peek b.state g now b
dispatch success g now b = on_success b.state g now b
dispatch failure g now b = on_failure b.state g now b

pub record Verdict : Type 0 where
  pub allowed : Bool
  pub state : BreakerState
  pub retry_after_ms : ℕ
  pub failures : ℕ
  pub successes : ℕ

abbrev store : Config → ℕ → Decision → Verdict × Breaker
store g now d = (
  record {
    allowed = d.allowed;
    state = d.after.state;
    retry_after_ms = d.retry_after_ms;
    failures = d.after.failures;
    successes = d.after.successes;
  },
  record (d.after) { expires_at = now + g.ttl },
)

-- `_run`: the script, its HSET and PEXPIRE, and the verdict made of its reply.
unfoldable pub run : Config → Op → ℕ → Option Breaker → Verdict × Breaker
unfolding touch
run g op now key = store g now (dispatch op g now (touch g now key))

-- `reset`
abbrev pub reset : Option Breaker → Option Breaker
reset key = none

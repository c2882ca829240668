-- ===== src/Worker/Client.antt =====
-- app/worker/client.py: one request to an endpoint through its breaker, its adaptive rate and its
-- token bucket, and the retry loop around it. The HTTP exchange is an input: its reply or its error.
-- Metrics and logs are left out. Nobody else uses the endpoint's keys during a call.
pub mod Attempts
pub mod Report
use ocr_orchestrator.Common.{
  ℕ, zero, suc, Bool, true, false, Option, none, some, List, [], ◌∷◌, ◌==◌, if◌then◌else◌,
}
use ocr_orchestrator.RateLimit.Breaker
use ocr_orchestrator.RateLimit.Breaker.{Breaker, Verdict}
use ocr_orchestrator.RateLimit.Bucket
use ocr_orchestrator.RateLimit.Bucket.{Bucket, Acquired, slept, timeout}
use ocr_orchestrator.RateLimit.Adaptive
use ocr_orchestrator.RateLimit.Adaptive.{Keys}
use ocr_orchestrator.RateLimit.Retry.{
  Error, circuit_open, rate_limit_timeout, http_status, timeout_exception, unknown_error,
  Disposition, retry, permanent, saturated, circuit_is_open, classify, retry_after, backoff_delay,
}

-- What the client was built with for one endpoint.
pub record Setup : Type 0 where
  pub breaker : Option Breaker.Config
  pub controller : Option Adaptive.Config
  pub limiter : Option Bucket.Config
  pub max_wait : ℕ
  pub cost : ℕ
  pub max_attempts : ℕ
  pub base : ℕ
  pub limit : ℕ

-- The keys of the endpoint in Redis.
pub record Endpoint : Type 0 where
  pub breaker : Option Breaker
  pub keys : Keys
  pub bucket : Option Bucket

pub data Response : Type 0 where
  replied : (latency : ℕ) → Response
  failed : Error → Response

-- What the outside decides about one attempt: the times of the gates and of the report, the jitter
-- of the wait for a slot, the response, and the draws of the backoff after it.
pub record Try : Type 0 where
  pub now : ℕ
  pub jitter : ℕ
  pub response : Response
  pub later : ℕ
  pub draw : ℕ → ℕ
  pub redraw : ℕ → ℕ

pub data Posted : Type 0 where
  returned : Posted
  raised : Error → Posted

-- `breaker.allow()`; without a breaker everything is allowed.
ask_breaker : Option Breaker.Config → ℕ → Endpoint → Option Error × Endpoint
ask_breaker none now e = (none, e)
ask_breaker (some g) now e =
    let r = Breaker.run g Breaker.allow now e.breaker in
    (
      if r.0.allowed then none else some (circuit_open r.0.retry_after_ms),
      record e { breaker = some r.1 },
    )

-- `controller.current()`
ask_rate : Option Adaptive.Config → ℕ → Endpoint → Option ℕ × Endpoint
ask_rate none now e = (none, e)
ask_rate (some g) now e =
    let r = Adaptive.run g Adaptive.read now e.keys in
    (some r.0.rate_milli, record e { keys = r.1 })

abbrev refusal : Acquired → Option Error
refusal (slept t) = none
refusal (timeout ms) = some (rate_limit_timeout ms)

-- `limiter.acquire(max_wait_s, rate)`
ask_slot : Setup → Option Bucket.Config → Try → Option ℕ → Endpoint → Option Error × Endpoint
ask_slot s none t rate e = (none, e)
ask_slot s (some g) t rate e =
    let c : Bucket.Call = record { cost = s.cost; max_wait = s.max_wait; rate = rate } in
    let r = Bucket.acquire g c t.jitter t.now e.bucket in
    (refusal r.0, record e { bucket = some r.1 })

-- Only a 429 and a timeout steer the rate.
abbrev is_load_signal : Error → Bool
is_load_signal (http_status code precise seconds) = code == 429
is_load_signal timeout_exception = true
is_load_signal _ = false

steer : Option Adaptive.Config → Adaptive.Op → ℕ → Endpoint → Endpoint
steer none op later e = e
steer (some g) op later e = record e { keys = (Adaptive.run g op later e.keys).1 }

pub tell_breaker : Option Breaker.Config → Breaker.Op → ℕ → Endpoint → Endpoint
tell_breaker none op later e = e
tell_breaker (some g) op later e = record e { breaker = some (Breaker.run g op later e.breaker).1 }

abbrev is_saturated : Disposition → Bool
is_saturated saturated = true
is_saturated _ = false

-- What is recorded of the exchange.
report : Setup → ℕ → Response → Endpoint → Posted × Endpoint
unfolding steer tell_breaker
report s later (replied latency) e = (
  returned,
  tell_breaker s.breaker Breaker.success later
      (steer s.controller (Adaptive.success_with latency) later e),
)
report s later (failed err) e =
    let steered =
      if is_load_signal err then steer s.controller Adaptive.congestion later e else e in
    (
      raised err,
      if is_saturated (classify err)
          then steered
          else tell_breaker s.breaker Breaker.failure later steered,
    )

send : Setup → Try → Option Error × Endpoint → Posted × Endpoint
unfolding report
send s t (some refused, e) = (raised refused, e)
send s t (none, e) = report s t.later t.response e

through_slot : Setup → Try → Option Error × Endpoint → Posted × Endpoint
unfolding send ask_rate ask_slot
through_slot s t (some refused, e) = (raised refused, e)
through_slot s t (none, e) =
    let r = ask_rate s.controller t.now e in send s t (ask_slot s s.limiter t r.0 r.1)

-- `_post`: the breaker first, then the rate and the slot, then the exchange and its reports.
unfoldable pub post : Setup → Try → Endpoint → Posted × Endpoint
unfolding ask_breaker through_slot
post s t e = through_slot s t (ask_breaker s.breaker t.now e)

-- The result of the loop, the calls of `_post` that were made, and the delays that were slept, last
-- first.
pub record Looped : Type 0 where
  pub result : Posted
  pub posts : ℕ
  pub delays : List ℕ
  pub endpoint : Endpoint

-- A retry is due for a transient error with an attempt left.
abbrev pub retries : Disposition → ℕ → Bool
retries retry zero = false
retries retry (suc left) = true
retries _ left = false

abbrev pub delay_after : Setup → Try → ℕ → Error → ℕ
delay_after s t attempt err = backoff_delay t.draw t.redraw attempt s.base s.limit (retry_after err)

-- The loop `for attempt in range(max_attempts)` from the outcome of the attempt `i` on, with `left`
-- attempts to go after it.
pub attempts : Setup → (ℕ → Try) → (left i : ℕ) → List ℕ → Posted × Endpoint → Looped
attempts s env left i delays (returned, e) = record {
  result = returned;
  posts = suc i;
  delays = delays;
  endpoint = e;
}
attempts s env zero i delays (raised err, e) = record {
  result = raised err;
  posts = suc i;
  delays = delays;
  endpoint = e;
}
attempts s env (suc left) i delays (raised err, e) =
    let more =
      attempts s env left (suc i) (delay_after s (env i) i err ∷ delays) (post s (env (suc i)) e) in
    if retries (classify err) (suc left)
    then more
    else record { result = raised err; posts = suc i; delays = delays; endpoint = e }

post_up_to : ℕ → Setup → (ℕ → Try) → Endpoint → Looped
post_up_to zero s env e = record {
  result = raised unknown_error;
  posts = 0;
  delays = [];
  endpoint = e;
}
post_up_to (suc left) s env e = attempts s env left 0 [] (post s (env 0) e)

-- `_post_with_retries`; the attempt `i` meets the outside `env i`. With no attempt at all it raises a
-- RuntimeError.
pub post_with_retries : Setup → (ℕ → Try) → Endpoint → Looped
unfolding post_up_to
post_with_retries s env e = post_up_to s.max_attempts s env e

-- ===== src/RateLimit/Examples.antt =====
-- Runs of the token bucket, the adaptive rate and the backoff, and the theorems at concrete inputs.
use ocr_orchestrator.Common.{ℕ, ◌+◌, ◌*◌, ◌/◌, ◌≤◌, ◌≡◌, refl, none, some, List, [], ◌∷◌, arith}
use ocr_orchestrator.Common.Int.{pos, ◌-ℤ◌, ◌+ℤ◌}
use ocr_orchestrator.RateLimit.Bucket
use ocr_orchestrator.RateLimit.Bucket.{
  Bucket, Call, try_acquire, decide, acquire, peek, load, refill, floor_milli, slept,
}
use ocr_orchestrator.RateLimit.Bucket.Bounds.{Within, try_acquire-Within}
use ocr_orchestrator.RateLimit.Bucket.Pace.{Arrival, AllOnPace, request, rate_kept}
use ocr_orchestrator.RateLimit.Adaptive
use ocr_orchestrator.RateLimit.Adaptive.{
  Controller, Keys, success_with, congestion, run, decrease_latency, p95_of, sort,
}
use ocr_orchestrator.RateLimit.Adaptive.Rate.{IsValid, run-InRange}
use ocr_orchestrator.RateLimit.Adaptive.Latency.{latency_raises}

-- Ten requests a second, bursts of two.
abbrev bucket_config : Bucket.Config
bucket_config = record { rate = 10_000; burst = 2_000_000_000; ttl = 300_000_000; jitter = 25_000 }

abbrev token : ℕ
token = 1_000_000_000

abbrev empty_bucket : Bucket
empty_bucket = record { tokens = pos 0; ts = 1_000; expires_at = 300_001_000 }

-- From an empty bucket a request waits for 100 ms, and the next for 200 ms.
reserves :
    (acquire bucket_config (request 10_000 token 5_000) 7 1_000 (some empty_bucket)).0
    ≡ slept 100_007
unfolding acquire decide ◌-ℤ◌ ◌+ℤ◌
reserves = refl

try_acquire-Within_example :
    Within bucket_config 50_000_000_000
      (try_acquire bucket_config (request 10_000 token 5_000) 1_000 (some empty_bucket)).1.tokens
try_acquire-Within_example =
    try_acquire-Within bucket_config 50_000_000_000 1_000 (request 10_000 token 5_000)
      (some empty_bucket) (omega arith) (omega arith) (omega arith)

abbrev arrivals : List Arrival
arrivals =
    record { at = 1_000; cost = token; max_wait = 5_000 }
    ∷ record { at = 1_000; cost = token; max_wait = 5_000 }
    ∷ record { at = 2_000; cost = token; max_wait = 5_000 }
    ∷ []

rate_kept_example : AllOnPace bucket_config 10_000 500 0 arrivals none
rate_kept_example =
    rate_kept bucket_config 10_000 50_000_000_000 500 arrivals (omega arith) (omega arith)
      (omega arith)

-- Rates in thousandths stand in for the bit patterns: a factor of 0.7, a step of 1.
abbrev decreased : ℕ → ℕ
decreased r = r * 7 / 10

abbrev increased : ℕ → ℕ
increased r = r + 1_000

abbrev adaptive_config : Adaptive.Config
adaptive_config = record {
  min_rate = 1_000;
  max_rate = 10_000;
  decrease = decreased;
  increase = increased;
  milli = λ r. r;
  nearest = λ r. r;
  increase_after = 20;
  refractory = 1_000_000;
  ttl = 300_000_000;
  latency_slo = 4_000;
  ring_size = 100;
  min_samples = 1;
  latency_floor = 5_000;
}

adaptive_config-IsValid : IsValid adaptive_config
adaptive_config-IsValid = record {
  positive = omega arith;
  ordered = omega arith;
  after_one = omega arith;
  floor_low = omega arith;
  floor_high = omega arith;
  decrease-le = λ r. omega arith;
  increase-ge = λ r. omega arith;
  milli-mono = λ q r h. h;
}

abbrev slow_controller : Controller
slow_controller = record {
  rate = 2_000;
  successes = 3;
  last_decrease_at = 100;
  expires_at = 300_000_000;
}

abbrev slow_keys : Keys
slow_keys = record { controller = some slow_controller; ring = none }

run-InRange_example : 1_000 ≤ (run adaptive_config congestion 5_000_000 slow_keys).0.rate_milli
run-InRange_example =
    (run-InRange adaptive_config congestion 5_000_000 slow_keys adaptive_config-IsValid
      (record { above = omega arith; below = omega arith; banked = omega arith })).1

latency_raises_example :
    (run adaptive_config (success_with 9_000) 5_000_000 slow_keys).0.reason ≡ decrease_latency
unfolding p95_of
latency_raises_example =
    (latency_raises adaptive_config 5_000_000 9_000 slow_keys slow_controller
      adaptive_config-IsValid refl (omega arith) (omega arith) (omega arith) refl).2

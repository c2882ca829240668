-- ===== src/Worker/Tests.antt =====
-- The client's theorems at concrete inputs.
use ocr_orchestrator.Common.{◌≡◌, refl, none, some, arith}
use ocr_orchestrator.Common.Int.{pos, ◌-ℤ◌, ◌+ℤ◌}
use ocr_orchestrator.RateLimit.Breaker
use ocr_orchestrator.RateLimit.Breaker.{Breaker, half_open, run}
use ocr_orchestrator.RateLimit.Bucket
use ocr_orchestrator.RateLimit.Bucket.{Bucket, acquire, decide}
use ocr_orchestrator.RateLimit.Retry.{timeout_exception}
use ocr_orchestrator.Worker.Client.{Setup, Endpoint, Try, failed, post, post_with_retries}
use ocr_orchestrator.Worker.Client.Attempts.{Tried, post_with_retries_attempts}
use ocr_orchestrator.Worker.Client.Report.{saturation_leaks}

abbrev breaker_config : Breaker.Config
breaker_config = record {
  window = 10_000_000;
  min_volume = 10;
  ratio_num = 1;
  ratio_den = 2;
  cooldown = 5_000_000;
  max_probes = 3;
  probe_successes = 2;
  ttl = 300_000_000;
}

abbrev bucket_config : Bucket.Config
bucket_config = record { rate = 10_000; burst = 2_000_000_000; ttl = 300_000_000; jitter = 25_000 }

abbrev setup : Setup
setup = record {
  breaker = some breaker_config;
  controller = none;
  limiter = some bucket_config;
  max_wait = 50;
  cost = 1_000_000_000;
  max_attempts = 3;
  base = 200_000;
  limit = 5_000_000;
}

abbrev probing : Breaker
probing = record {
  state = half_open;
  window_start = 0;
  failures = 6;
  successes = 4;
  opened_at = 1_000_000;
  probes = 2;
  probe_ok = 0;
  expires_at = 400_000_000;
}

abbrev drained : Bucket
drained = record { tokens = pos 0; ts = 7_000_000; expires_at = 300_000_000 }

abbrev endpoint : Endpoint
endpoint = record {
  breaker = some probing;
  keys = record { controller = none; ring = none };
  bucket = some drained;
}

abbrev timed_out : Try
timed_out = record {
  now = 7_000_000;
  jitter = 0;
  response = failed timeout_exception;
  later = 7_500_000;
  draw = λ high. high;
  redraw = λ high. high;
}

saturation_leaks_example :
    (post setup timed_out endpoint).1.breaker
    ≡ some (record probing { probes = 3; expires_at = 307_000_000 })
unfolding post acquire decide run ◌-ℤ◌ ◌+ℤ◌
saturation_leaks_example =
    saturation_leaks setup timed_out endpoint breaker_config probing 100 refl refl refl
      (omega arith) refl (λ e. cc)

post_with_retries_attempts_example :
    Tried setup (λ i. timed_out) endpoint 3 (post_with_retries setup (λ i. timed_out) endpoint)
post_with_retries_attempts_example =
    post_with_retries_attempts setup (λ i. timed_out) endpoint (omega arith)

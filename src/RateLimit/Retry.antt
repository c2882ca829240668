-- ===== src/RateLimit/Retry.antt =====
-- app/ratelimit/retry.py: what an error means for a retry, and how long to wait before one.
-- Delays are in microseconds.
pub mod Backoff
use Prim.Native.Nat.{◌^◌}
use ocr_orchestrator.Common.{
  ℕ, ◌+◌, ◌*◌, min, max, Bool, true, false, ◌||◌, Option, none, some, List, [], ◌∷◌, ◌==◌,
  if◌then◌else◌,
}
use ocr_orchestrator.Common.Int.{ℤ, pos_part}

-- A header that is absent, one that float() refuses, or its value.
pub data Header : Type 0 where
  absent malformed : Header
  number : ℤ → Header

-- The exceptions that `classify` tells apart. `x-retry-after-ms` is given in microseconds and
-- `retry-after` in seconds.
pub data Error : Type 0 where
  circuit_open : (retry_after_ms : ℕ) → Error
  rate_limit_timeout : (retry_after_ms : ℕ) → Error
  http_status : (code : ℕ) → (precise seconds : Header) → Error
  timeout_exception transport_error unknown_error : Error

pub data Disposition : Type 0 where
  retry permanent saturated circuit_is_open : Disposition

-- `RETRYABLE_STATUSES`
abbrev pub is_retryable : ℕ → Bool
is_retryable code =
    code == 408
    || (code == 425
        || (code == 429 || (code == 500 || (code == 502 || (code == 503 || code == 504)))))

abbrev pub classify : Error → Disposition
classify (circuit_open after) = circuit_is_open
classify (rate_limit_timeout after) = saturated
classify (http_status code precise seconds) = if is_retryable code then retry else permanent
classify timeout_exception = retry
classify transport_error = retry
classify unknown_error = permanent

-- `max(0.0, …)` of the value.
abbrev from_seconds : Header → Option ℕ
from_seconds absent = none
from_seconds malformed = none
from_seconds (number s) = some (pos_part s * 1_000_000)

abbrev from_headers : Header → Header → Option ℕ
from_headers (number us) seconds = some (pos_part us)
from_headers absent seconds = from_seconds seconds
from_headers malformed seconds = from_seconds seconds

-- `retry_after_ms`, in microseconds.
abbrev pub retry_after : Error → Option ℕ
retry_after (http_status code precise seconds) = from_headers precise seconds
retry_after _ = none

-- `backoff_delay_s`. The two draws from uniform(0, high) are functions of `high`.
pub backoff_delay : (draw redraw : ℕ → ℕ) (attempt base limit : ℕ) → Option ℕ → ℕ
backoff_delay draw redraw attempt base limit none = draw (min limit (base * 2 ^ attempt))
backoff_delay draw redraw attempt base limit (some hint) =
    max (draw (min limit (base * 2 ^ attempt))) hint + redraw base

-- ===== src/RateLimit/Retry/Backoff.antt =====
-- The delay of app/ratelimit/retry.py before an attempt.
use Prim.Native.Nat.{◌^◌}
use ocr_orchestrator.Common.{ℕ, ◌+◌, ◌*◌, ◌≤◌, min, max, Option, none, some, arith}
use ocr_orchestrator.RateLimit.Retry.{backoff_delay}

-- The floor of the delay, and its ceiling.
abbrev pub floor_of : Option ℕ → ℕ
floor_of none = 0
floor_of (some hint) = hint

abbrev pub ceiling_of : (attempt base limit : ℕ) → Option ℕ → ℕ
ceiling_of attempt base limit none = min limit (base * 2 ^ attempt)
ceiling_of attempt base limit (some hint) = max (min limit (base * 2 ^ attempt)) hint + base

-- A draw from uniform(0, high) is at most `high`. The delay is then never below the server's hint,
-- and never above the capped exponential ceiling, or the hint where that is larger, plus one base.
pub backoff_delay_bounds :
    (draw redraw : ℕ → ℕ) (attempt base limit : ℕ) (hint : Option ℕ)
    → ((high : ℕ) → draw high ≤ high)
    → ((high : ℕ) → redraw high ≤ high)
    → (floor_of hint ≤ backoff_delay draw redraw attempt base limit hint)
      × (backoff_delay draw redraw attempt base limit hint ≤ ceiling_of attempt base limit hint)
unfolding backoff_delay
backoff_delay_bounds draw redraw attempt base limit none d r =
    (omega arith, d (min limit (base * 2 ^ attempt)))
backoff_delay_bounds draw redraw attempt base limit (some hint) d r =
    omega (arith, d (min limit (base * 2 ^ attempt)), r base)

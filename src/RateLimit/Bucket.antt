-- ===== src/RateLimit/Bucket.antt =====
-- app/ratelimit/token_bucket.py: the script behind `TokenBucketLimiter`, and its methods.
-- A rate is in thousandths of a token per second, which is what the adaptive controller hands over;
-- a time is in microseconds, so that an amount of tokens is a whole number of billionths:
-- `elapsed * rate`. The balance may be negative: it is then the backlog of promised tokens.
pub mod Bounds
pub mod Pace
pub mod Slots
pub mod Peek
use ocr_orchestrator.Common.{
  ℕ, ◌+◌, ◌-◌, ◌*◌, ◌/◌, Bool, true, false, ◌&&◌, Option, none, some, ltb, leb, if◌then◌else◌,
}
use ocr_orchestrator.Common.Int.{ℤ, pos, negsuc, ◌+ℤ◌, ◌-ℤ◌, ltb_ℤ, pos_part}

-- `burst` is in billionths of a token too, `ttl` and `jitter` in microseconds.
pub record Config : Type 0 where
  pub rate : ℕ
  pub burst : ℕ
  pub ttl : ℕ
  pub jitter : ℕ

-- `__init__`, whose failure raises ValueError.
pub init : Config → Option Config
init g = if ltb 0 g.rate && ltb 0 g.burst then some g else none

pub record Bucket : Type 0 where
  pub tokens : ℤ
  pub ts : ℕ
  pub expires_at : ℕ

abbrev pub full : Config → ℕ → Bucket
full g now = record { tokens = pos g.burst; ts = now; expires_at = now }

-- HMGET: a key that is missing or has run out starts full.
abbrev pub load : Config → ℕ → Option Bucket → Bucket
load g now none = full g now
load g now (some b) = if leb now b.expires_at then b else full g now

abbrev pub min_ℤ : ℤ → ℤ → ℤ
min_ℤ a b = if ltb_ℤ b a then b else a

-- The lazy refill, for a positive interval only.
abbrev pub refill : Config → (rate now : ℕ) → Bucket → Bucket
refill g rate now b =
    if ltb b.ts now
    then record b { tokens = min_ℤ (pos g.burst) (b.tokens +ℤ pos ((now - b.ts) * rate)); ts = now }
    else b

-- The arguments of one call; `max_wait` is in milliseconds, and `rate` overrides the configured one.
pub record Call : Type 0 where
  pub cost : ℕ
  pub max_wait : ℕ
  pub rate : Option ℕ

abbrev pub rate_of : Config → Call → ℕ
rate_of g c = elim c.rate [ none ↦ g.rate | some r ↦ r ]

-- `math.ceil((cost - tokens) * 1000 / rate)`, where tokens < cost.
abbrev pub wait_for : (rate cost : ℕ) → ℤ → ℕ
wait_for rate cost tokens = (pos_part (pos cost -ℤ tokens) + (1000 * rate - 1)) / (1000 * rate)

-- `math.floor(tokens * 1000)`
abbrev pub floor_milli : ℤ → ℤ
floor_milli (pos n) = pos (n / 1_000_000)
floor_milli (negsuc n) = negsuc (n / 1_000_000)

-- `Acquisition`; `tokens` is in thousandths.
pub record Acquisition : Type 0 where
  pub granted : Bool
  pub wait_ms : ℕ
  pub tokens : ℤ

abbrev finish : Config → ℕ → Bool → ℕ → Bucket → Acquisition × Bucket
finish g now granted wait b = (
  record { granted = granted; wait_ms = wait; tokens = floor_milli b.tokens },
  record b { expires_at = now + g.ttl },
)

abbrev take : ℕ → Bucket → Bucket
take cost b = record b { tokens = b.tokens -ℤ pos cost }

-- The decision on the refilled bucket: grant, reserve, or refuse and leave the balance alone.
unfoldable pub decide : Config → (rate now : ℕ) → Call → Bucket → Acquisition × Bucket
decide g rate now c b =
    let wait = wait_for rate c.cost b.tokens in
    if ltb_ℤ b.tokens (pos c.cost)
    then (if leb wait c.max_wait
        then finish g now true wait (take c.cost b)
        else finish g now false wait b)
    else finish g now true 0 (take c.cost b)

-- `try_acquire`
unfoldable pub try_acquire : Config → Call → ℕ → Option Bucket → Acquisition × Bucket
try_acquire g c now key =
    let rate = rate_of g c in decide g rate now c (refill g rate now (load g now key))

pub data Acquired : Type 0 where
  -- The time slept, in microseconds.
  slept : ℕ → Acquired
  -- `RateLimitTimeout`, with its `retry_after` in milliseconds; nothing was slept.
  timeout : ℕ → Acquired

-- `acquire`; `draw` is the random jitter in microseconds, drawn below `g.jitter`.
abbrev pub acquired : ℕ → Acquisition → Acquired
acquired draw a =
    if a.granted
    then (if leb a.wait_ms 0 then slept 0 else slept (a.wait_ms * 1000 + draw))
    else timeout a.wait_ms

unfoldable pub acquire : Config → Call → (draw now : ℕ) → Option Bucket → Acquired × Bucket
unfolding try_acquire
acquire g c draw now key = let r = try_acquire g c now key in (acquired draw r.0, r.1)

abbrev pub peek_call : Call
peek_call = record { cost = 0; max_wait = 0; rate = none }

-- `peek`
pub peek : Config → ℕ → Option Bucket → ℤ × Bucket
unfolding try_acquire
peek g now key = let r = try_acquire g peek_call now key in (r.0.tokens, r.1)

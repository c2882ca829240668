-- ===== src/RateLimit/Bucket/Bounds.antt =====
-- The balance of app/ratelimit/token_bucket.py: bounds on its two sides, and the cost of a wait.
use ocr_orchestrator.Common.{
  ℕ, ◌+◌, ◌-◌, ◌*◌, ◌/◌, ◌≤◌, ◌<◌, ◌≡◌, refl, Option, none, some, arith, ◌⊎◌, inl, inr,
}
use ocr_orchestrator.Common.Int.{ℤ, pos, negsuc, ◌+ℤ◌, ◌-ℤ◌, pos_part, neg_part, -ℤ_parts}
use ocr_orchestrator.RateLimit.Bucket.{
  Config, Bucket, Call, load, refill, decide, try_acquire, wait_for, rate_of,
}

pub parts_apart : (a : ℤ) → (pos_part a ≡ 0) ⊎ (neg_part a ≡ 0)
parts_apart (pos n) = inr refl
parts_apart (negsuc n) = inl refl

ceil_ge : (x d : ℕ) → 0 < d → x ≤ d * ((x + (d - 1)) / d)
ceil_ge x d h = grind arith

ceil_lt : (x d : ℕ) → 0 < d → d * ((x + (d - 1)) / d) < x + d
ceil_lt x d h = grind arith

pub mul_mono : (d a b : ℕ) → a ≤ b → d * a ≤ d * b
mul_mono d a b h = grind arith

-- A wait is long enough for the refill to pay what is missing.
pub wait_pays :
    (rate cost : ℕ) (tokens : ℤ)
    → 0 < rate
    → cost + neg_part tokens ≤ pos_part tokens + 1000 * rate * wait_for rate cost tokens
wait_pays rate cost tokens h = omega (
  arith,
  -ℤ_parts (pos cost) tokens,
  ceil_ge (pos_part (pos cost -ℤ tokens)) (1000 * rate) (omega arith),
)

-- And less than a millisecond longer.
pub wait_tight :
    (rate cost : ℕ) (tokens : ℤ)
    → 0 < rate
    → pos_part tokens < cost + neg_part tokens
    → pos_part tokens + 1000 * rate * wait_for rate cost tokens
      < cost + neg_part tokens + 1000 * rate
wait_tight rate cost tokens h low = omega (
  arith,
  -ℤ_parts (pos cost) tokens,
  parts_apart (pos cost -ℤ tokens),
  ceil_lt (pos_part (pos cost -ℤ tokens)) (1000 * rate) (omega arith),
)

-- The balance is at least -`debt` and at most the burst.
pub record Within (g : Config) (debt : ℕ) (tokens : ℤ) : Type 0 where
  pub above : neg_part tokens ≤ debt
  pub below : pos_part tokens ≤ g.burst

abbrev pub KeyWithin : Config → ℕ → Option Bucket → Type 0
KeyWithin g debt none = Unit
KeyWithin g debt (some b) = Within g debt b.tokens

load-Within :
    (g : Config) (debt now : ℕ) (key : Option Bucket)
    → KeyWithin g debt key
    → Within g debt (load g now key).tokens
load-Within g debt now none k = record { above = omega arith; below = omega arith }
load-Within g debt now (some b) k = ground arith

refill-Within :
    (g : Config) (debt rate now : ℕ) (b : Bucket)
    → Within g debt b.tokens
    → Within g debt (refill g rate now b).tokens
unfolding ◌+ℤ◌
refill-Within g debt rate now b k = ground arith

decide-Within :
    (g : Config) (debt rate now : ℕ) (c : Call) (b : Bucket)
    → 0 < rate
    → 1000 * rate * c.max_wait ≤ debt
    → Within g debt b.tokens
    → Within g debt (decide g rate now c b).1.tokens
unfolding decide
decide-Within g debt rate now c b positive room k =
    let wait = wait_for rate c.cost b.tokens in
    ground (
      arith,
      wait_pays rate c.cost b.tokens positive,
      mul_mono (1000 * rate) wait c.max_wait,
      -ℤ_parts b.tokens (pos c.cost),
      parts_apart (b.tokens -ℤ pos c.cost),
      parts_apart b.tokens,
    )

-- Every call keeps the balance between the burst and the backlog that fits the longest wait:
-- -(rate * max_wait), for any bound on that product over the calls made.
pub try_acquire-Within :
    (g : Config) (debt now : ℕ) (c : Call) (key : Option Bucket)
    → 0 < rate_of g c
    → 1000 * rate_of g c * c.max_wait ≤ debt
    → KeyWithin g debt key
    → Within g debt (try_acquire g c now key).1.tokens
unfolding try_acquire
try_acquire-Within g debt now c key positive room k =
    decide-Within g debt (rate_of g c) now c (refill g (rate_of g c) now (load g now key)) positive
      room (refill-Within g debt (rate_of g c) now (load g now key) (load-Within g debt now key k))

-- ===== src/RateLimit/Bucket/Slots.antt =====
-- How far apart the slots are that app/ratelimit/token_bucket.py reserves.
use ocr_orchestrator.Common.{ℕ, ◌+◌, ◌-◌, ◌*◌, ◌≤◌, ◌<◌, ◌≡◌, ap, ◌∙◌, true, Option, some, arith}
use ocr_orchestrator.Common.Int.{pos, pos_part, neg_part, +ℤ_parts, -ℤ_parts}
use ocr_orchestrator.RateLimit.Bucket.{
  Config, Bucket, Call, load, refill, decide, try_acquire, wait_for,
}
use ocr_orchestrator.RateLimit.Bucket.Bounds.{wait_pays, wait_tight}
use ocr_orchestrator.RateLimit.Bucket.Pace.{mul_add, elapsed_mul, regroup, request}

-- A reservation leaves a backlog that lasts for nearly the whole of its wait.
decide_tight :
    (g : Config) (rate now : ℕ) (c : Call) (b : Bucket)
    → 0 < rate
    → let d = decide g rate now c b in
      d.0.granted ≡ true
      → 0 < d.0.wait_ms
      → (pos_part d.1.tokens + rate * (1000 * d.0.wait_ms) < neg_part d.1.tokens + 1000 * rate)
        × (d.1.ts ≡ b.ts)
        × (d.1.expires_at ≡ now + g.ttl)
unfolding decide
decide_tight g rate now c b positive got waits =
    let left = -ℤ_parts b.tokens (pos c.cost) in
    let tight = wait_tight rate c.cost b.tokens positive in
    (ground (arith, regroup rate (wait_for rate c.cost b.tokens)), ground arith, ground arith)

-- A grant's cost is paid by the balance and the refill during its wait.
decide_paid :
    (g : Config) (rate now : ℕ) (c : Call) (b : Bucket)
    → 0 < rate
    → let d = decide g rate now c b in
      d.0.granted ≡ true
      → c.cost + neg_part b.tokens ≤ pos_part b.tokens + rate * (1000 * d.0.wait_ms)
unfolding decide
decide_paid g rate now c b positive got =
    let pays = wait_pays rate c.cost b.tokens positive in
    ground (arith, regroup rate (wait_for rate c.cost b.tokens))

refill_gain :
    (g : Config) (rate now : ℕ) (b : Bucket)
    → b.ts ≤ now
    → let t = (refill g rate now b).tokens in
      pos_part t + neg_part b.tokens + rate * b.ts ≤ pos_part b.tokens + neg_part t + rate * now
refill_gain g rate now b h =
    ground (arith, elapsed_mul rate b.ts now h, +ℤ_parts b.tokens (pos ((now - b.ts) * rate)))

refill-ts : (g : Config) (rate now : ℕ) (b : Bucket) → b.ts ≤ now → (refill g rate now b).ts ≡ now
refill-ts g rate now b h = ground arith

load_alive : (g : Config) (now : ℕ) (b : Bucket) → now ≤ b.expires_at → load g now (some b) ≡ b
load_alive g now b h = ground arith

first_slot :
    (g : Config) (rate now cost wait : ℕ) (key : Option Bucket)
    → 0 < rate
    → (load g now key).ts ≤ now
    → let d = try_acquire g (request rate cost wait) now key in
      d.0.granted ≡ true
      → 0 < d.0.wait_ms
      → (pos_part d.1.tokens + rate * (1000 * d.0.wait_ms) < neg_part d.1.tokens + 1000 * rate)
        × (d.1.ts ≡ now)
        × (d.1.expires_at ≡ now + g.ttl)
unfolding try_acquire
first_slot g rate now cost wait key positive past got waits =
    let tight =
      decide_tight g rate now (request rate cost wait) (refill g rate now (load g now key)) positive
        got waits in
    (tight.0, tight.1 ∙ refill-ts g rate now (load g now key) past, tight.2)

second_slot :
    (g : Config) (rate now cost wait : ℕ) (b : Bucket)
    → 0 < rate
    → b.ts ≤ now
    → now ≤ b.expires_at
    → let d = try_acquire g (request rate cost wait) now (some b) in
      d.0.granted ≡ true
      → cost + neg_part b.tokens + rate * b.ts
        ≤ pos_part b.tokens + rate * now + rate * (1000 * d.0.wait_ms)
unfolding try_acquire
second_slot g rate now cost wait b positive past alive got =
    let paid =
      decide_paid g rate now (request rate cost wait) (refill g rate now (load g now (some b)))
        positive got in
    let same = load_alive g now b alive in
    let gain =
      refill_gain g rate now (load g now (some b))
        (omega (arith, ap (λ (x : Bucket). x.ts) same)) in
    omega (
      arith,
      paid,
      gain,
      ap (λ (x : Bucket). pos_part x.tokens) same,
      ap (λ (x : Bucket). neg_part x.tokens) same,
      ap (λ (x : Bucket). rate * x.ts) same,
    )

-- Two requests at one rate, the first of which has to wait: the second, if granted, starts after the
-- first by the time that its cost takes to refill, up to the millisecond to which waits are rounded.
pub slots_apart :
    (g : Config) (rate now later cost wait cost' wait' : ℕ) (key : Option Bucket)
    → 0 < rate
    → (load g now key).ts ≤ now
    → now ≤ later
    → later ≤ now + g.ttl
    → let d = try_acquire g (request rate cost wait) now key in
      let e = try_acquire g (request rate cost' wait') later (some d.1) in
      d.0.granted ≡ true
      → 0 < d.0.wait_ms
      → e.0.granted ≡ true
      → rate * (now + 1000 * d.0.wait_ms) + cost'
        ≤ rate * (later + 1000 * e.0.wait_ms) + 1000 * rate
slots_apart g rate now later cost wait cost' wait' key positive past order alive got waits got' =
    let d = try_acquire g (request rate cost wait) now key in
    let e = try_acquire g (request rate cost' wait') later (some d.1) in
    let first = first_slot g rate now cost wait key positive past got waits in
    let second =
      second_slot g rate later cost' wait' d.1 positive (omega (arith, first.1))
        (omega (arith, first.2)) got' in
    omega (
      arith,
      first.0,
      second,
      ap (λ (x : ℕ). rate * x) first.1,
      mul_add rate now (1000 * d.0.wait_ms),
      mul_add rate later (1000 * e.0.wait_ms),
    )

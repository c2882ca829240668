-- ===== src/RateLimit/Bucket/Peek.antt =====
-- `peek` of app/ratelimit/token_bucket.py.
use ocr_orchestrator.Common.{ℕ, ◌<◌, ◌≡◌, Option, arith}
use ocr_orchestrator.Common.Int.{ℤ, pos, ◌-ℤ◌, pos_part, neg_part, -ℤ_parts, eq_of_parts}
use ocr_orchestrator.RateLimit.Bucket.{
  Config, Bucket, load, refill, decide, wait_for, peek, peek_call, floor_milli,
}
use ocr_orchestrator.RateLimit.Bucket.Bounds.{wait_pays, parts_apart}

sub_zero : (a : ℤ) → a -ℤ pos 0 ≡ a
sub_zero a = eq_of_parts (a -ℤ pos 0) a (omega (arith, -ℤ_parts a (pos 0)))

wait_pos :
    (rate : ℕ) (tokens : ℤ)
    → 0 < rate
    → pos_part tokens < neg_part tokens
    → 0 < wait_for rate 0 tokens
wait_pos rate tokens positive low = grind (arith, wait_pays rate 0 tokens positive)

decide_peek :
    (g : Config) (rate now : ℕ) (b : Bucket)
    → 0 < rate
    → let d = decide g rate now peek_call b in
      (d.1.tokens ≡ b.tokens) × (d.0.tokens ≡ floor_milli b.tokens)
unfolding decide
decide_peek g rate now b positive =
    ground (arith, sub_zero b.tokens, wait_pos rate b.tokens positive, parts_apart b.tokens)

-- A peek takes no token and makes no reservation: it reports the balance of the refilled bucket,
-- rounded down, also where that balance is a backlog.
pub peek_keeps :
    (g : Config) (now : ℕ) (key : Option Bucket)
    → 0 < g.rate
    → let b = refill g g.rate now (load g now key) in
      let p = peek g now key in (p.0 ≡ floor_milli b.tokens) × (p.1.tokens ≡ b.tokens)
unfolding peek
peek_keeps g now key positive =
    let d = decide_peek g g.rate now (refill g g.rate now (load g now key)) positive in (d.1, d.0)

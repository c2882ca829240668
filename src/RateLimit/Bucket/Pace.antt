-- ===== src/RateLimit/Bucket/Pace.antt =====
-- How much app/ratelimit/token_bucket.py grants in a span of time.
use ocr_orchestrator.Common.{
  ℕ, ◌+◌, ◌-◌, ◌*◌, ◌≤◌, ◌<◌, ◌≡◌, refl, ◌∙◌, true, Option, none, some, List, [], ◌∷◌, arith,
  if◌then◌else◌,
}
use ocr_orchestrator.Common.Int.{pos, ◌+ℤ◌, ◌-ℤ◌, pos_part, neg_part, +ℤ_parts, -ℤ_parts}
use ocr_orchestrator.RateLimit.Bucket.{
  Config, Bucket, Call, Acquisition, load, refill, decide, try_acquire, wait_for,
}
use ocr_orchestrator.RateLimit.Bucket.Bounds.{
  wait_pays, mul_mono, parts_apart, KeyWithin, Within, try_acquire-Within,
}

-- What a call takes from the bucket.
abbrev pub spent : Call → Acquisition → ℕ
spent c a = if a.granted then c.cost else 0

-- `total` was granted since `start`, and the balance accounts for it.
abbrev pub Accounts : Config → (rate start total : ℕ) → Bucket → Type 0
Accounts g rate start total b =
    total + pos_part b.tokens + rate * start ≤ g.burst + rate * b.ts + neg_part b.tokens

pub elapsed_mul : (rate ts now : ℕ) → ts ≤ now → (now - ts) * rate + rate * ts ≡ rate * now
elapsed_mul rate ts now h = grind arith

pub mul_add : (d a b : ℕ) → d * (a + b) ≡ d * a + d * b
mul_add d a b = grind arith

pub regroup : (rate wait : ℕ) → 1000 * rate * wait ≡ rate * (1000 * wait)
regroup rate wait = grind arith

refill-Accounts :
    (g : Config) (rate start total now : ℕ) (b : Bucket)
    → b.ts ≤ now
    → Accounts g rate start total b
    → Accounts g rate start total (refill g rate now b) × ((refill g rate now b).ts ≡ now)
refill-Accounts g rate start total now b h k = ground (
  arith,
  elapsed_mul rate b.ts now,
  +ℤ_parts b.tokens (pos ((now - b.ts) * rate)),
  parts_apart (b.tokens +ℤ pos ((now - b.ts) * rate)),
  parts_apart b.tokens,
)

-- The balance covers the grant, and the wait covers the backlog that is left.
decide-Accounts :
    (g : Config) (rate start total now : ℕ) (c : Call) (b : Bucket)
    → 0 < rate
    → Accounts g rate start total b
    → let d = decide g rate now c b in
      Accounts g rate start (total + spent c d.0) d.1
      × (d.1.ts ≡ b.ts)
      × (d.1.expires_at ≡ now + g.ttl)
      × (d.0.granted ≡ true
          → neg_part d.1.tokens ≤ pos_part d.1.tokens + rate * (1000 * d.0.wait_ms))
unfolding decide
decide-Accounts g rate start total now c b positive k =
    let left = -ℤ_parts b.tokens (pos c.cost) in
    let pays = wait_pays rate c.cost b.tokens positive in
    let apart = parts_apart (b.tokens -ℤ pos c.cost) in
    (
      ground arith,
      ground arith,
      ground arith,
      ground (arith, regroup rate (wait_for rate c.cost b.tokens)),
    )

-- The ledger of a key: what it was granted since `start`, the last call being at `last`.
abbrev pub Ledger : Config → (rate debt start total last : ℕ) → Option Bucket → Type 0
Ledger g rate debt start total last none = (total ≡ 0) × (start ≤ last)
Ledger g rate debt start total last (some b) =
    Accounts g rate start total b
    × (b.ts ≡ last)
    × (b.expires_at ≡ last + g.ttl)
    × Within g debt b.tokens

-- A key that has run out reads as a full bucket, and would have been full: its TTL is long enough
-- to pay off the backlog and to fill it.
load-Accounts :
    (g : Config) (rate debt start total last now : ℕ) (key : Option Bucket)
    → g.burst + debt ≤ rate * g.ttl
    → last ≤ now
    → Ledger g rate debt start total last key
    → Accounts g rate start total (load g now key) × ((load g now key).ts ≤ now)
load-Accounts g rate debt start total last now none long order l =
    let later : start ≤ now = omega (arith, l.1) in
    (omega (arith, mul_mono rate start now later, l.0), omega arith)
load-Accounts g rate debt start total last now (some b) long order l =
    let far = mul_mono rate (last + g.ttl) now in
    let kept = l.3 in ground (arith, far, l.0, l.1, l.2, kept.above, mul_add rate last g.ttl)

Ledger-KeyWithin :
    (g : Config) (rate debt start total last : ℕ) (key : Option Bucket)
    → Ledger g rate debt start total last key
    → KeyWithin g debt key
Ledger-KeyWithin g rate debt start total last none l = tt
Ledger-KeyWithin g rate debt start total last (some b) l = l.3

-- A request of `cost` at the given rate, that will wait up to `max_wait`.
abbrev pub request : (rate cost max_wait : ℕ) → Call
request rate cost max_wait = record { cost = cost; max_wait = max_wait; rate = some rate }

-- The slot of a granted request starts when its wait is over. By then no more than the burst and
-- the refill since `start` is granted.
abbrev pub OnPace : Config → (rate start total now cost : ℕ) → Acquisition → Type 0
OnPace g rate start total now cost a =
    a.granted ≡ true → total + cost + rate * start ≤ g.burst + rate * (now + 1000 * a.wait_ms)

slot-OnPace :
    (g : Config) (rate start total now : ℕ) (c : Call) (a : Acquisition) (b : Bucket)
    → Accounts g rate start (total + spent c a) b
    → b.ts ≡ now
    → (a.granted ≡ true → neg_part b.tokens ≤ pos_part b.tokens + rate * (1000 * a.wait_ms))
    → OnPace g rate start total now c.cost a
slot-OnPace g rate start total now c a b k ts covered granted =
    ground (arith, mul_add rate now (1000 * a.wait_ms), covered granted)

-- One call, at a time not before the last.
try_acquire-Ledger :
    (g : Config) (rate debt start total last now cost wait : ℕ) (key : Option Bucket)
    → 0 < rate
    → 1000 * rate * wait ≤ debt
    → g.burst + debt ≤ rate * g.ttl
    → last ≤ now
    → Ledger g rate debt start total last key
    → let c = request rate cost wait in
      let d = try_acquire g c now key in
      Ledger g rate debt start (total + spent c d.0) now (some d.1)
      × OnPace g rate start total now cost d.0
unfolding try_acquire
try_acquire-Ledger g rate debt start total last now cost wait key positive room long order l =
    let c = request rate cost wait in
    let loaded = load-Accounts g rate debt start total last now key long order l in
    let refilled = refill-Accounts g rate start total now (load g now key) loaded.1 loaded.0 in
    let decided =
      decide-Accounts g rate start total now c (refill g rate now (load g now key)) positive
        refilled.0 in
    let within =
      try_acquire-Within g debt now c key positive room
        (Ledger-KeyWithin g rate debt start total last key l) in
    let at_now = decided.1 ∙ refilled.1 in
    (
      (decided.0, at_now, decided.2, within),
      slot-OnPace g rate start total now c (try_acquire g c now key).0 (try_acquire g c now key).1
          decided.0 at_now decided.3,
    )

-- The calls of a run: the time, the cost and the longest wait of each.
pub record Arrival : Type 0 where
  pub at : ℕ
  pub cost : ℕ
  pub max_wait : ℕ

-- The calls come in the order of the server's clock, and none may wait for more than `debt` pays.
abbrev pub InOrder : (rate debt last : ℕ) → List Arrival → Type 0
InOrder rate debt last [] = Unit
InOrder rate debt last (a ∷ rest) =
    (last ≤ a.at) × (1000 * rate * a.max_wait ≤ debt) × InOrder rate debt a.at rest

-- Every request of the run that is granted is on pace, `total` counting those before it.
abbrev pub AllOnPace : Config → (rate start total : ℕ) → List Arrival → Option Bucket → Type 0
AllOnPace g rate start total [] key = Unit
AllOnPace g rate start total (a ∷ rest) key =
    let c = request rate a.cost a.max_wait in
    let d = try_acquire g c a.at key in
    OnPace g rate start total a.at a.cost d.0
    × AllOnPace g rate start (total + spent c d.0) rest (some d.1)

run-AllOnPace :
    (g : Config) (rate debt start total last : ℕ) (calls : List Arrival) (key : Option Bucket)
    → 0 < rate
    → g.burst + debt ≤ rate * g.ttl
    → InOrder rate debt last calls
    → Ledger g rate debt start total last key
    → AllOnPace g rate start total calls key
run-AllOnPace g rate debt start total last [] key positive long order l = tt
run-AllOnPace g rate debt start total last (a ∷ rest) key positive long order l =
    let c = request rate a.cost a.max_wait in
    let d = try_acquire g c a.at key in
    let step =
      try_acquire-Ledger g rate debt start total last a.at a.cost a.max_wait key positive order.1
        long order.0 l in
    (
      step.1,
      run-AllOnPace g rate debt start (total + spent c d.0) a.at rest (some d.1) positive long
          order.2 step.0,
    )

-- From an unused key at time `start`, with all calls at one rate: by the time at which the slot of
-- any granted request starts, at most the burst and rate times the time since `start` was granted,
-- that request included. Idle keys may run out on the way, if the TTL covers the burst and the debt.
pub rate_kept :
    (g : Config) (rate debt start : ℕ) (calls : List Arrival)
    → 0 < rate
    → g.burst + debt ≤ rate * g.ttl
    → InOrder rate debt start calls
    → AllOnPace g rate start 0 calls none
rate_kept g rate debt start calls positive long order =
    run-AllOnPace g rate debt start 0 start calls none positive long order (refl, omega arith)

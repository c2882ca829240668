-- ===== src/RateLimit/Adaptive/Rate.antt =====
-- The rate of app/ratelimit/adaptive.py: its bounds, and how often it is cut.
use ocr_orchestrator.Common.{
  ℕ, ◌+◌, ◌≤◌, ◌<◌, ◌≡◌, refl, Bool, Option, none, some, List, [], ◌∷◌, arith,
}
use ocr_orchestrator.RateLimit.Adaptive.{
  Config, Controller, Keys, Op, success, success_with, congestion, read, run, react, load,
  latency_of, p95_now, too_slow,
}

-- What __init__ checks, and what the operations on doubles do: a factor in (0, 1) does not make a
-- rate larger, a positive step does not make it smaller, and rounding to thousandths keeps the order.
pub record IsValid (g : Config) : Type 0 where
  pub positive : 0 < g.min_rate
  pub ordered : g.min_rate ≤ g.max_rate
  pub after_one : 1 ≤ g.increase_after
  pub floor_low : g.min_rate ≤ g.latency_floor
  pub floor_high : g.latency_floor ≤ g.max_rate
  pub decrease-le : (r : ℕ) → g.decrease r ≤ r
  pub increase-ge : (r : ℕ) → r ≤ g.increase r
  pub milli-mono : (q r : ℕ) → q ≤ r → g.milli q ≤ g.milli r

pub record InRange (g : Config) (c : Controller) : Type 0 where
  pub above : g.min_rate ≤ c.rate
  pub below : c.rate ≤ g.max_rate
  pub banked : c.successes < g.increase_after

abbrev pub KeyInRange : Config → Option Controller → Type 0
KeyInRange g none = Unit
KeyInRange g (some c) = InRange g c

load-InRange :
    (g : Config) (now : ℕ) (key : Option Controller)
    → IsValid g
    → KeyInRange g key
    → InRange g (load g now key)
load-InRange g now none v k = ground arith
load-InRange g now (some c) v k = ground arith

react-InRange :
    (g : Config) (now : ℕ) (op : Op) (slow : Bool) (c : Controller)
    → IsValid g
    → InRange g c
    → InRange g (react g now op slow c).after
react-InRange g now success slow c v k = ground (arith, v.decrease-le c.rate, v.increase-ge c.rate)
react-InRange g now (success_with x) slow c v k =
    ground (arith, v.decrease-le c.rate, v.increase-ge c.rate)
react-InRange g now congestion slow c v k =
    ground (arith, v.decrease-le c.rate, v.increase-ge c.rate)
react-InRange g now read slow c v k = k

-- Every call stores a rate between min_rate and max_rate, and fewer banked successes than an increase
-- takes. The rate that it returns lies between the two as they are when rounded to thousandths.
pub run-InRange :
    (g : Config) (op : Op) (now : ℕ) (k : Keys)
    → IsValid g
    → KeyInRange g k.controller
    → KeyInRange g (run g op now k).1.controller
      × (g.milli g.min_rate ≤ (run g op now k).0.rate_milli)
      × ((run g op now k).0.rate_milli ≤ g.milli g.max_rate)
unfolding run
run-InRange g op now k v r =
    let slow = too_slow g (p95_now g now (latency_of g op) k.ring) in
    let after =
      react-InRange g now op slow (load g now k.controller) v
        (load-InRange g now k.controller v r) in
    (
      record { above = after.above; below = after.below; banked = after.banked },
      v.milli-mono g.min_rate _ after.above,
      v.milli-mono _ g.max_rate after.below,
    )

-- Calls at their times, all before `end`, and each before the key runs out.
abbrev pub Before : Config → (end expiry : ℕ) → List (Op × ℕ) → Type 0
Before g end expiry [] = Unit
Before g end expiry ((op, now) ∷ rest) =
    (now < end) × (now ≤ expiry) × Before g end (now + g.ttl) rest

abbrev pub after_calls : Config → List (Op × ℕ) → Keys → Keys
after_calls g [] k = k
after_calls g ((op, now) ∷ rest) k = after_calls g rest (run g op now k).1

-- The stored rate is at least `low`, and the last cut was at `at`.
abbrev pub Holds : (low at expiry : ℕ) → Option Controller → Type 0
Holds low at expiry none = ⊥
Holds low at expiry (some c) = (low ≤ c.rate) × (c.last_decrease_at ≡ at) × (c.expires_at ≡ expiry)

load-Holds :
    (g : Config) (low at expiry now : ℕ) (key : Option Controller)
    → now ≤ expiry
    → Holds low at expiry key
    → (low ≤ (load g now key).rate) × ((load g now key).last_decrease_at ≡ at)
load-Holds g low at expiry now none alive h = absurd h
load-Holds g low at expiry now (some c) alive h = ground arith

react_refractory :
    (g : Config) (low at now : ℕ) (op : Op) (slow : Bool) (c : Controller)
    → IsValid g
    → low ≤ c.rate
    → low ≤ g.max_rate
    → now < at + g.refractory
    → c.last_decrease_at ≡ at
    → (low ≤ (react g now op slow c).after.rate)
      × ((react g now op slow c).after.last_decrease_at ≡ at)
react_refractory g low at now success slow c v h top early e = ground (arith, v.increase-ge c.rate)
react_refractory g low at now (success_with x) slow c v h top early e =
    ground (arith, v.increase-ge c.rate)
react_refractory g low at now congestion slow c v h top early e = ground arith
react_refractory g low at now read slow c v h top early e = (h, e)

run_refractory :
    (g : Config) (low at expiry now : ℕ) (op : Op) (k : Keys)
    → IsValid g
    → low ≤ g.max_rate
    → now < at + g.refractory
    → now ≤ expiry
    → Holds low at expiry k.controller
    → Holds low at (now + g.ttl) (run g op now k).1.controller
unfolding run
run_refractory g low at expiry now op k v top early alive h =
    let slow = too_slow g (p95_now g now (latency_of g op) k.ring) in
    let c = load g now k.controller in
    let held = load-Holds g low at expiry now k.controller alive h in
    let after = react_refractory g low at now op slow c v held.0 top early held.1 in
    (after.0, after.1, refl)

-- After a cut at the time `at`, no call within the refractory window takes the rate below what the
-- cut left: whatever the failures reported, one event leads to one cut.
pub no_second_cut :
    (g : Config) (low at expiry : ℕ) (calls : List (Op × ℕ)) (k : Keys)
    → IsValid g
    → low ≤ g.max_rate
    → Before g (at + g.refractory) expiry calls
    → Holds low at expiry k.controller
    → (end : ℕ) × Holds low at end (after_calls g calls k).controller
no_second_cut g low at expiry [] k v top before h = (expiry, h)
no_second_cut g low at expiry ((op, now) ∷ rest) k v top before h =
    no_second_cut g low at (now + g.ttl) rest (run g op now k).1 v top before.2
      (run_refractory g low at expiry now op k v top before.0 before.1 h)

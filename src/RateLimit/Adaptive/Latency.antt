-- ===== src/RateLimit/Adaptive/Latency.antt =====
-- The latency signal of app/ratelimit/adaptive.py: what its p95 is, and what it does to the rate.
use ocr_orchestrator.Common.{
  ℕ, zero, suc, ◌+◌, ◌-◌, ◌*◌, ◌/◌, ◌≤◌, ◌<◌, ◌≡◌, refl, Bool, true, Option, none, some, List, [],
  ◌∷◌, arith, All, count_if, count_if-le, length, get_elem?, ltb, if◌then◌else◌,
}
use ocr_orchestrator.RateLimit.Adaptive.{
  Config, Controller, Keys, success_with, run, react, load, latency_of, p95_now, too_slow, p95_of,
  sort, insert, decrease_latency,
}
use ocr_orchestrator.RateLimit.Adaptive.Rate.{IsValid}

abbrev IsSorted : List ℕ → Type 0
IsSorted [] = Unit
IsSorted (x ∷ xs) = All (λ y. x ≤ y) xs × IsSorted xs

All-insert : (x y : ℕ) (ys : List ℕ) → x ≤ y → All (λ z. x ≤ z) ys → All (λ z. x ≤ z) (insert y ys)
unfolding insert
All-insert x y [] h a = (h, tt)
All-insert x y (z ∷ zs) h a = ground (arith, All-insert x y zs)

All-trans : (x y : ℕ) (ys : List ℕ) → x ≤ y → All (λ z. y ≤ z) ys → All (λ z. x ≤ z) ys
All-trans x y [] h a = tt
All-trans x y (z ∷ zs) h a = (omega arith, All-trans x y zs h a.1)

insert-IsSorted : (x : ℕ) (ys : List ℕ) → IsSorted ys → IsSorted (insert x ys)
unfolding insert
insert-IsSorted x [] s = (tt, tt)
insert-IsSorted x (y ∷ ys) s =
    ground (arith, All-trans x y ys, All-insert y x ys, insert-IsSorted x ys s.1)

sort-IsSorted : (xs : List ℕ) → IsSorted (sort xs)
unfolding sort
sort-IsSorted [] = tt
sort-IsSorted (x ∷ xs) = insert-IsSorted x (sort xs) (sort-IsSorted xs)

count_if-insert :
    (p : ℕ → Bool) (x : ℕ) (ys : List ℕ)
    → count_if p (insert x ys) ≡ (if p x then 1 else 0) + count_if p ys
unfolding insert
count_if-insert p x [] = refl
count_if-insert p x (y ∷ ys) = ground (arith, count_if-insert p x ys)

count_if-sort : (p : ℕ → Bool) (xs : List ℕ) → count_if p (sort xs) ≡ count_if p xs
unfolding sort
count_if-sort p [] = refl
count_if-sort p (x ∷ xs) = omega (arith, count_if-insert p x (sort xs), count_if-sort p xs)

length-insert : (x : ℕ) (ys : List ℕ) → length (insert x ys) ≡ suc (length ys)
unfolding insert
length-insert x [] = refl
length-insert x (y ∷ ys) = ground (arith, length-insert x ys)

length-sort : (xs : List ℕ) → length (sort xs) ≡ length xs
unfolding sort
length-sort [] = refl
length-sort (x ∷ xs) = omega (arith, length-insert x (sort xs), length-sort xs)

All-get : (x p i : ℕ) (ys : List ℕ) → All (λ y. x ≤ y) ys → get_elem? ys i ≡ some p → x ≤ p
All-get x p i [] a e = ground arith
All-get x p zero (y ∷ ys) a e = ground arith
All-get x p (suc i) (y ∷ ys) a e = All-get x p i ys a.1 e

none_below : (p : ℕ) (ys : List ℕ) → All (λ y. p ≤ y) ys → count_if (λ y. ltb y p) ys ≡ 0
none_below p [] a = refl
none_below p (y ∷ ys) a = ground (arith, none_below p ys a.1)

-- How many elements lie beyond the one at an index of a sorted list.
above_index :
    (p i : ℕ) (ys : List ℕ)
    → IsSorted ys
    → get_elem? ys i ≡ some p
    → count_if (λ y. ltb p y) ys + i < length ys
above_index p i [] s e = ground arith
above_index p zero (y ∷ ys) s e = ground (arith, count_if-le (λ y. ltb p y) ys)
above_index p (suc i) (y ∷ ys) s e = ground (arith, above_index p i ys s.1, All-get y p i ys s.0)

below_index :
    (p i : ℕ) (ys : List ℕ) → IsSorted ys → get_elem? ys i ≡ some p → count_if (λ y. ltb y p) ys ≤ i
below_index p i [] s e = ground arith
below_index p zero (y ∷ ys) s e = ground (arith, none_below y ys s.0, none_below p ys)
below_index p (suc i) (y ∷ ys) s e = ground (arith, below_index p i ys s.1)

p95_at :
    (g : Config) (xs : List ℕ) (p : ℕ)
    → p95_of g xs ≡ some p
    → (g.min_samples ≤ length xs) × (get_elem? (sort xs) ((95 * length xs + 99) / 100 - 1) ≡ some p)
unfolding p95_of
p95_at g xs p e = ground arith

-- The p95 of the samples is the nearest-rank 95th percentile: at most 5% of them are larger, and
-- less than 95% are smaller. It is taken from as many samples as are asked for, at least one.
pub p95_of_percentile :
    (g : Config) (xs : List ℕ) (p : ℕ)
    → 0 < length xs
    → p95_of g xs ≡ some p
    → (g.min_samples ≤ length xs)
      × (100 * count_if (λ x. ltb p x) xs ≤ 5 * length xs)
      × (100 * count_if (λ x. ltb x p) xs < 95 * length xs)
unfolding p95_of
p95_of_percentile g xs p some_samples e =
    let n = length xs in
    let i = (95 * n + 99) / 100 - 1 in
    let at = p95_at g xs p e in
    let above = above_index p i (sort xs) (sort-IsSorted xs) at.1 in
    let below = below_index p i (sort xs) (sort-IsSorted xs) at.1 in
    (
      at.0,
      omega (arith, above, count_if-sort (λ x. ltb p x) xs, length-sort xs),
      omega (arith, below, count_if-sort (λ x. ltb x p) xs),
    )

load_alive :
    (g : Config) (now : ℕ) (key : Option Controller) (c : Controller)
    → key ≡ some c
    → now ≤ c.expires_at
    → load g now key ≡ c
load_alive g now none c e alive = ground arith
load_alive g now (some d) c e alive = ground arith

floor_kept :
    (g : Config) (now x : ℕ) (slow : Bool) (c : Controller)
    → IsValid g
    → g.latency_floor ≤ c.rate
    → g.latency_floor ≤ (react g now (success_with x) slow c).after.rate
floor_kept g now x slow c v h = ground (arith, v.increase-ge c.rate)

breach_raises :
    (g : Config) (now x : ℕ) (c : Controller)
    → g.decrease c.rate ≤ c.rate
    → c.last_decrease_at + g.refractory ≤ now
    → c.rate < g.latency_floor
    → let s = react g now (success_with x) true c in
      (s.after.rate ≡ g.latency_floor) × (s.reason ≡ decrease_latency)
breach_raises g now x c shrinks late low = ground arith

-- A latency breach outside the refractory window, at a rate that congestion signals have taken
-- below the floor for latency, raises the stored rate to that floor and reports a decrease.
pub latency_raises :
    (g : Config) (now x : ℕ) (k : Keys) (c : Controller)
    → IsValid g
    → k.controller ≡ some c
    → now ≤ c.expires_at
    → c.last_decrease_at + g.refractory ≤ now
    → c.rate < g.latency_floor
    → too_slow g (p95_now g now (latency_of g (success_with x)) k.ring) ≡ true
    → let r = run g (success_with x) now k in
      (r.1.controller
        ≡ some (record {
          rate = g.latency_floor;
          successes = 0;
          last_decrease_at = now;
          expires_at = now + g.ttl;
        }))
      × (r.0.rate_milli ≡ g.milli g.latency_floor)
      × (r.0.reason ≡ decrease_latency)
unfolding run
latency_raises g now x k c v e alive late low slow =
    let loaded = load_alive g now k.controller c e alive in
    let cut = breach_raises g now x (load g now k.controller) in
    rw slow (ground (arith, loaded, cut, v.decrease-le c.rate))

abbrev pub KeptAbove : ℕ → Option Controller → Type 0
KeptAbove low none = ⊥
KeptAbove low (some c) = low ≤ c.rate

-- Latency alone never takes a rate that is at the floor for latency or above to one below it.
pub latency_floor_kept :
    (g : Config) (now x : ℕ) (k : Keys)
    → IsValid g
    → g.latency_floor ≤ (load g now k.controller).rate
    → KeptAbove g.latency_floor (run g (success_with x) now k).1.controller
unfolding run
latency_floor_kept g now x k v h =
    floor_kept g now x (too_slow g (p95_now g now (latency_of g (success_with x)) k.ring))
      (load g now k.controller) v h

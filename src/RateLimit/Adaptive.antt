-- ===== src/RateLimit/Adaptive.antt =====
-- app/ratelimit/adaptive.py: the script behind `AdaptiveRate`. Rates and latencies are doubles that
-- are not negative. Such a double is represented by its bit pattern, a natural number: the patterns
-- are ordered as the doubles are, and 0 is 0.0. The two operations on rates, multiplication by
-- decrease_factor and addition of increase_step, are parameters of the configuration, and so are the
-- two roundings of the reply: `milli` is `math.floor(rate * 1000 + 0.5)` and `nearest` is
-- `math.floor(p95 + 0.5)`, both whole numbers.
-- Times are in microseconds.
pub mod Rate
pub mod Latency
use ocr_orchestrator.Common.{
  ℕ, ◌+◌, ◌-◌, ◌*◌, ◌/◌, Bool, true, false, ◌&&◌, Option, none, some, List, [], ◌∷◌, ltb, leb, ◌==◌,
  if◌then◌else◌, length, get_elem?, take,
}

pub record Config : Type 0 where
  pub min_rate : ℕ
  pub max_rate : ℕ
  pub decrease : ℕ → ℕ
  pub increase : ℕ → ℕ
  pub milli : ℕ → ℕ
  pub nearest : ℕ → ℕ
  pub increase_after : ℕ
  pub refractory : ℕ
  pub ttl : ℕ
  pub latency_slo : ℕ
  pub ring_size : ℕ
  pub min_samples : ℕ
  pub latency_floor : ℕ

-- The checks of `__init__` on the rates; those on the factor and the step are on the parameters.
pub init : Config → Option Config
init g =
    if (ltb 0 g.max_rate && ltb 0 g.min_rate)
      && (leb g.min_rate g.max_rate
          && (leb 1 g.increase_after
              && (leb g.min_rate g.latency_floor && leb g.latency_floor g.max_rate)))
    then some g
    else none

-- The controller hash.
pub record Controller : Type 0 where
  pub rate : ℕ
  pub successes : ℕ
  pub last_decrease_at : ℕ
  pub expires_at : ℕ

-- The ring buffer of latencies, newest first.
pub record Ring : Type 0 where
  pub samples : List ℕ
  pub expires_at : ℕ

-- Both keys.
pub record Keys : Type 0 where
  pub controller : Option Controller
  pub ring : Option Ring

pub data Op : Type 0 where
  success : Op
  -- With its latency, `none` for -1.
  success_with : ℕ → Op
  congestion : Op
  read : Op

pub data Reason : Type 0 where
  quiet signal latency refractory at_floor decrease decrease_latency increase : Reason

-- A controller that is missing starts at the advertised rate.
abbrev pub load : Config → ℕ → Option Controller → Controller
load g now none = record {
  rate = g.max_rate;
  successes = 0;
  last_decrease_at = 0;
  expires_at = now;
}
load g now (some c) =
    if leb now c.expires_at
    then c
    else record { rate = g.max_rate; successes = 0; last_decrease_at = 0; expires_at = now }

abbrev pub samples_of : ℕ → Option Ring → List ℕ
samples_of now none = []
samples_of now (some r) = if leb now r.expires_at then r.samples else []

-- LPUSH and LTRIM 0 (ring_size - 1), where the index -1 is the last one.
abbrev pub push : Config → ℕ → List ℕ → List ℕ
push g x xs = if g.ring_size == 0 then x ∷ xs else take g.ring_size (x ∷ xs)

insert : ℕ → List ℕ → List ℕ
insert x [] = x ∷ []
insert x (y ∷ ys) = let rest = insert x ys in if leb x y then x ∷ y ∷ ys else y ∷ rest

-- `table.sort`
pub sort : List ℕ → List ℕ
unfolding insert
sort [] = []
sort (x ∷ xs) = insert x (sort xs)

-- `math.ceil(0.95 * n)`, at least 1, and the element there of a list that counts from 1.
unfoldable pub p95_of : Config → List ℕ → Option ℕ
unfolding sort
p95_of g xs =
    if leb g.min_samples (length xs)
    then get_elem? (sort xs) ((95 * length xs + 99) / 100 - 1)
    else none

-- The latency is recorded on success only, where the SLO is set.
abbrev pub latency_of : Config → Op → Option ℕ
latency_of g (success_with x) = if ltb 0 g.latency_slo then some x else none
latency_of g _ = none

abbrev pub record_latency : Config → ℕ → Option ℕ → Option Ring → Option Ring
record_latency g now none ring = ring
record_latency g now (some x) ring =
    some (record { samples = push g x (samples_of now ring); expires_at = now + g.ttl })

abbrev pub p95_now : Config → ℕ → Option ℕ → Option Ring → Option ℕ
p95_now g now none ring = none
p95_now g now (some x) ring = p95_of g (push g x (samples_of now ring))

-- `p95 > latency_slo_ms` for a p95 that was taken.
abbrev pub too_slow : Config → Option ℕ → Bool
too_slow g none = false
too_slow g (some p) = ltb 0 g.latency_slo && ltb g.latency_slo p

pub record Step : Type 0 where
  pub after : Controller
  pub changed : Bool
  pub reason : Reason

abbrev pub raise_to : ℕ → ℕ → ℕ
raise_to floor r = if ltb r floor then floor else r

-- The cut, down to `floor`; `named` is the reason that is reported for it.
abbrev pub cut : Config → (floor now : ℕ) → Reason → Controller → Step
cut g floor now named c =
    let new_rate = raise_to floor (g.decrease c.rate) in
    let d = record c { rate = new_rate; successes = 0; last_decrease_at = now } in
    if new_rate == c.rate
    then record { after = d; changed = false; reason = at_floor }
    else record { after = d; changed = true; reason = named }

abbrev pub congested : Config → (floor now : ℕ) → Reason → Controller → Step
congested g floor now named c =
    if ltb now (c.last_decrease_at + g.refractory)
    then record { after = record c { successes = 0 }; changed = false; reason = refractory }
    else cut g floor now named c

-- The new rate after a step up, capped.
abbrev pub cap_at : ℕ → ℕ → ℕ
cap_at high r = if ltb high r then high else r

abbrev pub succeeded : Config → Controller → Step
succeeded g c =
    if leb g.increase_after (c.successes + 1)
    then (if ltb c.rate g.max_rate
        then record {
          after = record c { rate = cap_at g.max_rate (g.increase c.rate); successes = 0 };
          changed = true;
          reason = increase;
        }
        else record { after = record c { successes = 0 }; changed = false; reason = quiet })
    else record {
      after = record c { successes = c.successes + 1 };
      changed = false;
      reason = quiet;
    }

abbrev pub on_success : Config → ℕ → Bool → Controller → Step
on_success g now true c = congested g g.latency_floor now decrease_latency c
on_success g now false c = succeeded g c

-- The part of the script on the controller, given whether the p95 is too slow.
abbrev pub react : Config → ℕ → Op → Bool → Controller → Step
react g now success slow c = on_success g now slow c
react g now (success_with x) slow c = on_success g now slow c
react g now congestion slow c = congested g g.min_rate now decrease c
react g now read slow c = record { after = c; changed = false; reason = quiet }

-- `RateVerdict`, whose rate is in thousandths here; `none` is the p95 of -1.
pub record RateVerdict : Type 0 where
  pub rate_milli : ℕ
  pub changed : Bool
  pub reason : Reason
  pub p95_ms : Option ℕ
  pub successes : ℕ

abbrev rounded : (ℕ → ℕ) → Option ℕ → Option ℕ
rounded nearest none = none
rounded nearest (some p) = some (nearest p)

-- `_run`
unfoldable pub run : Config → Op → ℕ → Keys → RateVerdict × Keys
run g op now k =
    let x = latency_of g op in
    let p95 = p95_now g now x k.ring in
    let s = react g now op (too_slow g p95) (load g now k.controller) in
    (
      record {
        rate_milli = g.milli s.after.rate;
        changed = s.changed;
        reason = s.reason;
        p95_ms = rounded g.nearest p95;
        successes = s.after.successes;
      },
      record {
        controller = some (record (s.after) { expires_at = now + g.ttl });
        ring = record_latency g now x k.ring;
      },
    )

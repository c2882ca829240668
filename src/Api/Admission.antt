-- ===== src/Api/Admission.antt =====
-- app/api/admission.py: the script behind `AdmissionController` and its `evaluate`. Times are in
-- milliseconds. The product of the watermark with the fraction and the estimate of the time to drain
-- are double arithmetic, and parameters of the configuration.
pub mod Watermark
pub mod Overshoot
use ocr_orchestrator.Common.{
  ℕ, ◌+◌, ◌-◌, min, max, Bool, true, false, not, ◌&&◌, Option, none, some, List, [], ◌∷◌, ltb, leb,
  if◌then◌else◌,
}

-- `scaled` is `int(high_watermark * low_watermark_fraction)`, and `drain` the jittered, rounded-up
-- number of seconds in which an excess of pages is served.
pub record Config : Type 0 where
  pub high_watermark : ℕ
  pub scaled : ℕ → ℕ
  pub drain : ℕ → ℕ
  pub cap : ℕ
  pub ttl : ℕ

-- The check of `__init__` on the watermark.
pub init : Config → Option Config
init g = if ltb g.high_watermark 1 then none else some g

abbrev pub low_watermark : Config → ℕ
low_watermark g = max 1 (g.scaled g.high_watermark)

-- The admission hash.
pub record State : Type 0 where
  pub shedding : Bool
  pub recoveries : ℕ
  pub trips : ℕ
  pub admitted_jobs : ℕ
  pub admitted_pages : ℕ
  pub shed_jobs : ℕ
  pub shed_pages : ℕ
  pub expires_at : ℕ

abbrev pub empty : ℕ → State
empty now = record {
  shedding = false;
  recoveries = 0;
  trips = 0;
  admitted_jobs = 0;
  admitted_pages = 0;
  shed_jobs = 0;
  shed_pages = 0;
  expires_at = now;
}

abbrev pub load : ℕ → Option State → State
load now none = empty now
load now (some s) = if leb now s.expires_at then s else empty now

-- XLEN, summed over the lanes.
abbrev pub depth_of : List ℕ → ℕ
depth_of [] = 0
depth_of (n ∷ lanes) = n + depth_of lanes

-- The recovery half of the Schmitt trigger.
abbrev pub recover : Config → ℕ → State → State
recover g depth s =
    if s.shedding && leb depth (low_watermark g)
    then record s { shedding = false; recoveries = s.recoveries + 1 }
    else s

abbrev pub fits : Config → (depth pages : ℕ) → State → Bool
fits g depth pages s = not s.shedding && leb (depth + pages) g.high_watermark

-- A job that does not fit trips the trigger, if it has not tripped yet.
abbrev pub trip : Config → (depth pages : ℕ) → State → State
trip g depth pages s =
    if not s.shedding && not (leb (depth + pages) g.high_watermark)
    then record s { shedding = true; trips = s.trips + 1 }
    else s

abbrev pub count : Bool → ℕ → State → State
count true pages s = record s {
  admitted_jobs = s.admitted_jobs + 1;
  admitted_pages = s.admitted_pages + pages;
}
count false pages s = record s { shed_jobs = s.shed_jobs + 1; shed_pages = s.shed_pages + pages }

pub record Verdict : Type 0 where
  pub admitted : Bool
  pub depth : ℕ
  pub shedding : Bool
  pub retry_after : ℕ
  pub shed_jobs : ℕ
  pub shed_pages : ℕ
  pub admitted_jobs : ℕ

-- `_retry_after`
abbrev pub retry_after : Config → ℕ → ℕ
retry_after g depth = max 1 (min g.cap (g.drain (depth - low_watermark g)))

-- `evaluate`
unfoldable pub evaluate : Config → (pages now : ℕ) → List ℕ → Option State → Verdict × State
evaluate g pages now lanes key =
    let depth = depth_of lanes in
    let s = recover g depth (load now key) in
    let admitted = fits g depth pages s in
    let t = count admitted pages (trip g depth pages s) in
    (
      record {
        admitted = admitted;
        depth = depth;
        shedding = t.shedding;
        retry_after = if admitted then 0 else retry_after g depth;
        shed_jobs = t.shed_jobs;
        shed_pages = t.shed_pages;
        admitted_jobs = t.admitted_jobs;
      },
      record t { expires_at = now + g.ttl },
    )

-- `reset`
abbrev pub reset : Option State → Option State
reset key = none

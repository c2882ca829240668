-- ===== src/Api/Admission/Watermark.antt =====
-- What app/api/admission.py guarantees of the queue's depth and of its own counts.
use mathlib.Core.Path.{subst}
use ocr_orchestrator.Common.{
  ℕ, ◌+◌, ◌-◌, ◌≤◌, ◌<◌, ◌≡◌, refl, sym, true, false, not, leb, ◌⊎◌, Option, none, some, List, [],
  ◌∷◌, arith, if◌then◌else◌,
}
use ocr_orchestrator.Api.Admission.{Config, State, Verdict, load, low_watermark, depth_of, evaluate}

-- Jobs are submitted, each enqueued at once if it is admitted, and pages are settled.
pub data Event : Type 0 where
  submit : (pages now : ℕ) → Event
  settle : ℕ → Event

pub record System : Type 0 where
  pub depth : ℕ
  pub key : Option State

abbrev pub enqueued : ℕ → Verdict → ℕ
enqueued pages v = if v.admitted then pages else 0

unfoldable pub step : Config → Event → System → System
step g (submit pages now) s =
    let r = evaluate g pages now (s.depth ∷ []) s.key in
    record { depth = s.depth + enqueued pages r.0; key = some r.1 }
step g (settle n) s = record s { depth = s.depth - n }

unfoldable pub run : Config → List Event → System → System
run g [] s = s
run g (e ∷ es) s = run g es (step g e s)

-- Every trip but the one that is in force was followed by a recovery.
abbrev pub Balanced : State → Type 0
Balanced s = s.trips ≡ s.recoveries + (if s.shedding then 1 else 0)

abbrev pub KeyBalanced : Option State → Type 0
KeyBalanced none = Unit
KeyBalanced (some s) = Balanced s

pub record IsSound (g : Config) (s : System) : Type 0 where
  pub bounded : s.depth ≤ g.high_watermark
  pub balanced : KeyBalanced s.key

evaluate-bounded :
    (g : Config) (pages now depth : ℕ) (key : Option State)
    → depth ≤ g.high_watermark
    → depth + enqueued pages (evaluate g pages now (depth ∷ []) key).0 ≤ g.high_watermark
unfolding evaluate
evaluate-bounded g pages now depth key h = ground arith

load-Balanced : (now : ℕ) (key : Option State) → KeyBalanced key → Balanced (load now key)
load-Balanced now none b = ground arith
load-Balanced now (some s) b = ground arith

evaluate-Balanced :
    (g : Config) (pages now : ℕ) (lanes : List ℕ) (key : Option State)
    → KeyBalanced key
    → Balanced (evaluate g pages now lanes key).1
unfolding evaluate
evaluate-Balanced g pages now lanes key b = ground (arith, load-Balanced now key b)

step-IsSound : (g : Config) (e : Event) (s : System) → IsSound g s → IsSound g (step g e s)
unfolding step
step-IsSound g (submit pages now) s h = record {
  bounded = evaluate-bounded g pages now s.depth s.key h.bounded;
  balanced = evaluate-Balanced g pages now (s.depth ∷ []) s.key h.balanced;
}
step-IsSound g (settle n) s h = record { bounded = omega (arith, h.bounded); balanced = h.balanced }

-- What the trigger does with a job: while it is tripped and the depth is above the low watermark the job
-- is refused, else it is admitted exactly if it fits; and it is tripped behind a job exactly if that was
-- refused.
pub record Triggered (g : Config) (pages now depth : ℕ) (key : Option State) : Type 0 where
  pub sheds :
      (load now key).shedding ≡ true
      → low_watermark g < depth
      → (evaluate g pages now (depth ∷ []) key).0.admitted ≡ false
  pub admits :
      ((load now key).shedding ≡ false) ⊎ (depth ≤ low_watermark g)
      → (evaluate g pages now (depth ∷ []) key).0.admitted ≡ leb (depth + pages) g.high_watermark
  pub trips :
      (evaluate g pages now (depth ∷ []) key).1.shedding
      ≡ not (evaluate g pages now (depth ∷ []) key).0.admitted

evaluate-Triggered :
    (g : Config) (pages now depth : ℕ) (key : Option State) → Triggered g pages now depth key
unfolding evaluate
evaluate-Triggered g pages now depth key = record {
  sheds = ground arith;
  admits = ground arith;
  trips = ground arith;
}

-- All the jobs of a sequence of events.
abbrev pub AllTriggered : Config → List Event → System → Type 0
AllTriggered g [] s = Unit
AllTriggered g (submit pages now ∷ es) s =
    Triggered g pages now s.depth s.key × AllTriggered g es (step g (submit pages now) s)
AllTriggered g (settle n ∷ es) s = AllTriggered g es (step g (settle n) s)

-- Whatever jobs are submitted one after the other, and whatever is settled between them, the depth
-- never passes the high watermark, and the trigger trips and recovers in turn. While it is tripped and
-- the depth is above the low watermark it refuses each job, else it admits exactly those that fit, and
-- it is tripped behind a job exactly if that was refused.
pub run-IsSound :
    (g : Config) (es : List Event) (s : System)
    → IsSound g s
    → IsSound g (run g es s) × AllTriggered g es s
unfolding run
run-IsSound g [] s h = (h, tt)
run-IsSound g (submit pages now ∷ es) s h =
    let rest =
      run-IsSound g es (step g (submit pages now) s) (step-IsSound g (submit pages now) s h) in
    (rest.0, (evaluate-Triggered g pages now s.depth s.key, rest.1))
run-IsSound g (settle n ∷ es) s h =
    run-IsSound g es (step g (settle n) s) (step-IsSound g (settle n) s h)

-- Submissions at the depths that they find.
pub record Submission : Type 0 where
  pub pages : ℕ
  pub now : ℕ
  pub lanes : List ℕ

-- Each finds a depth above the low watermark, and a key that has not run out.
abbrev pub AboveLow : Config → (expiry : ℕ) → List Submission → Type 0
AboveLow g expiry [] = Unit
AboveLow g expiry (j ∷ js) =
    (low_watermark g < depth_of j.lanes) × (j.now ≤ expiry) × AboveLow g (j.now + g.ttl) js

pub admitted_of : Config → List Submission → State → ℕ
admitted_of g [] s = 0
admitted_of g (j ∷ js) s =
    let r = evaluate g j.pages j.now j.lanes (some s) in
    (if r.0.admitted then 1 else 0) + admitted_of g js r.1

shed_step :
    (g : Config) (j : Submission) (s : State)
    → s.shedding ≡ true
    → low_watermark g < depth_of j.lanes
    → j.now ≤ s.expires_at
    → let r = evaluate g j.pages j.now j.lanes (some s) in
      (r.0.admitted ≡ false)
      × (r.1.shedding ≡ true)
      × (r.1.expires_at ≡ j.now + g.ttl)
      × (0 < r.0.retry_after)
unfolding evaluate
shed_step g j s shed deep alive = (ground arith, ground arith, ground arith, ground arith)

-- Once tripped, the trigger admits no job, however small, until one finds the depth at the low
-- watermark or below.
pub shed_until_low :
    (g : Config) (js : List Submission) (s : State)
    → s.shedding ≡ true
    → AboveLow g s.expires_at js
    → admitted_of g js s ≡ 0
unfolding admitted_of
shed_until_low g [] s shed deep = refl
shed_until_low g (j ∷ js) s shed deep =
    let r = shed_step g j s shed deep.0 deep.1 in
    let rest =
      shed_until_low g js (evaluate g j.pages j.now j.lanes (some s)).1 r.1
        (subst (λ t. AboveLow g t js) (sym r.2) deep.2) in
    ground (arith, r.0, rest)

-- Every evaluation is counted once, as admitted or as shed, with its pages.
pub evaluate_counts :
    (g : Config) (pages now : ℕ) (lanes : List ℕ) (s : State)
    → now ≤ s.expires_at
    → let t = (evaluate g pages now lanes (some s)).1 in
      (t.admitted_jobs + t.shed_jobs ≡ s.admitted_jobs + s.shed_jobs + 1)
      × (t.admitted_pages + t.shed_pages ≡ s.admitted_pages + s.shed_pages + pages)
unfolding evaluate
evaluate_counts g pages now lanes s alive = ground arith

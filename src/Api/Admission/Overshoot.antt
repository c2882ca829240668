-- ===== src/Api/Admission/Overshoot.antt =====
-- By how much concurrent admissions of app/api/admission.py can pass the high watermark.
use ocr_orchestrator.Common.{
  ℕ, ◌+◌, ◌≤◌, ◌≡◌, refl, ◌⊎◌, inl, inr, true, false, Option, some, List, [], ◌∷◌, arith,
  Bool-cases, ◌∙◌, ap, ◌++◌,
}
use ocr_orchestrator.Api.Admission.{Config, State, depth_of, evaluate}
use ocr_orchestrator.Api.Admission.Watermark.{enqueued}

-- Jobs that are all evaluated before the first of them is enqueued.
pub admitted_pages_of : Config → List ℕ → List (ℕ × ℕ) → Option State → ℕ
admitted_pages_of g lanes [] key = 0
admitted_pages_of g lanes ((pages, now) ∷ jobs) key =
    let r = evaluate g pages now lanes key in
    enqueued pages r.0 + admitted_pages_of g lanes jobs (some r.1)

abbrev pub pages_of : List (ℕ × ℕ) → ℕ
pages_of [] = 0
pages_of ((pages, now) ∷ jobs) = pages + pages_of jobs

admitted_pages_of-le :
    (g : Config) (lanes : List ℕ) (jobs : List (ℕ × ℕ)) (key : Option State)
    → admitted_pages_of g lanes jobs key ≤ pages_of jobs
unfolding admitted_pages_of
admitted_pages_of-le g lanes [] key = omega arith
admitted_pages_of-le g lanes ((pages, now) ∷ jobs) key =
    let r = evaluate g pages now lanes key in
    ground (arith, admitted_pages_of-le g lanes jobs (some r.1))

admitted_fits :
    (g : Config) (lanes : List ℕ) (pages now : ℕ) (key : Option State)
    → (evaluate g pages now lanes key).0.admitted ≡ true
    → depth_of lanes + pages ≤ g.high_watermark
unfolding evaluate
admitted_fits g lanes pages now key h = ground arith

-- The first job that is admitted: it fits under the watermark, none is admitted before it, and all
-- together pass the watermark by no more than the pages of the jobs behind it.
pub record FirstAdmitted (g : Config) (lanes : List ℕ) (jobs : List (ℕ × ℕ)) (key : Option State)
    : Type 0 where
  pub before : List (ℕ × ℕ)
  pub pages : ℕ
  pub at : ℕ
  pub behind : List (ℕ × ℕ)
  pub split : jobs ≡ before ++ (pages, at) ∷ behind
  pub none_before : admitted_pages_of g lanes before key ≡ 0
  pub first_fits : depth_of lanes + pages ≤ g.high_watermark
  pub overshoot :
      depth_of lanes + admitted_pages_of g lanes jobs key ≤ g.high_watermark + pages_of behind

none_admitted :
    (g : Config) (lanes : List ℕ) (key : Option State) → admitted_pages_of g lanes [] key ≡ 0
unfolding admitted_pages_of
none_admitted g lanes key = refl

first_admitted :
    (g : Config) (lanes : List ℕ) (pages now : ℕ) (jobs : List (ℕ × ℕ)) (key : Option State)
    → (evaluate g pages now lanes key).0.admitted ≡ true
    → FirstAdmitted g lanes ((pages, now) ∷ jobs) key
unfolding admitted_pages_of
first_admitted g lanes pages now jobs key got =
    let rest = admitted_pages_of-le g lanes jobs (some (evaluate g pages now lanes key).1) in
    let fit = admitted_fits g lanes pages now key got in
    record {
      before = [];
      pages = pages;
      at = now;
      behind = jobs;
      split = refl;
      none_before = refl;
      first_fits = fit;
      overshoot = rw got (omega (arith, rest, fit));
    }

first_refused :
    (g : Config) (lanes : List ℕ) (pages now : ℕ) (jobs : List (ℕ × ℕ)) (key : Option State)
    → (evaluate g pages now lanes key).0.admitted ≡ false
    → admitted_pages_of g lanes ((pages, now) ∷ jobs) key
      ≡ admitted_pages_of g lanes jobs (some (evaluate g pages now lanes key).1)
unfolding admitted_pages_of
first_refused g lanes pages now jobs key refused = rw refused (omega arith)

later_admitted :
    (g : Config) (lanes : List ℕ) (pages now : ℕ) (jobs : List (ℕ × ℕ)) (key : Option State)
    → (evaluate g pages now lanes key).0.admitted ≡ false
    → FirstAdmitted g lanes jobs (some (evaluate g pages now lanes key).1)
    → FirstAdmitted g lanes ((pages, now) ∷ jobs) key
later_admitted g lanes pages now jobs key refused f = record {
  before = (pages, now) ∷ f.before;
  pages = f.pages;
  at = f.at;
  behind = f.behind;
  split = ap (λ js. (pages, now) ∷ js) f.split;
  none_before = first_refused g lanes pages now f.before key refused ∙ f.none_before;
  first_fits = f.first_fits;
  overshoot = omega (arith, first_refused g lanes pages now jobs key refused, f.overshoot);
}

-- Of jobs that are all evaluated at the same depth, none is admitted, or the first admitted one fits
-- under the high watermark, and the depth and all admitted pages together pass the watermark by at most
-- the pages of the jobs behind it.
pub overshoot_bounded :
    (g : Config) (lanes : List ℕ) (jobs : List (ℕ × ℕ)) (key : Option State)
    → (admitted_pages_of g lanes jobs key ≡ 0) ⊎ FirstAdmitted g lanes jobs key
overshoot_bounded g lanes [] key = inl (none_admitted g lanes key)
overshoot_bounded g lanes ((pages, now) ∷ jobs) key =
    let next = some (evaluate g pages now lanes key).1 in
    elim (Bool-cases (evaluate g pages now lanes key).0.admitted) [
      | inl got ↦ inr (first_admitted g lanes pages now jobs key got)
      | inr refused ↦ elim (overshoot_bounded g lanes jobs next) [
        | inl nothing ↦ inl (first_refused g lanes pages now jobs key refused ∙ nothing)
        | inr first ↦ inr (later_admitted g lanes pages now jobs key refused first)
      ]
    ]

-- ===== src/Api/Tests.antt =====
-- The theorems on admission at concrete inputs.
use ocr_orchestrator.Common.{◌+◌, ◌≡◌, ◌⊎◌, refl, true, none, List, [], ◌∷◌, arith}
use ocr_orchestrator.Api.Admission.{Config, State, evaluate, empty}
use ocr_orchestrator.Api.Admission.Watermark.{
  Event, submit, settle, run, step, IsSound, AllTriggered, run-IsSound,
}
use ocr_orchestrator.Api.Admission.Overshoot.{admitted_pages_of, FirstAdmitted, overshoot_bounded}

abbrev config : Config
config = record {
  high_watermark = 100;
  scaled = λ high. 80;
  drain = λ excess. excess + 1;
  cap = 300;
  ttl = 3_600_000;
}

abbrev shedding_state : State
shedding_state = record (empty 0) { shedding = true; trips = 1; expires_at = 1_000 }

-- 60 pages, then 60 that do not fit, and 30 once 45 are settled.
abbrev day : List Event
day = submit 60 1 ∷ submit 60 2 ∷ settle 45 ∷ submit 30 3 ∷ []

day_depth : (run config day (record { depth = 0; key = none })).depth ≡ 45
unfolding run step evaluate
day_depth = refl

run-IsSound_example :
    IsSound config (run config day (record { depth = 0; key = none }))
    × AllTriggered config day (record { depth = 0; key = none })
run-IsSound_example =
    run-IsSound config day (record { depth = 0; key = none })
      (record { bounded = omega arith; balanced = tt })

overshoot_bounded_example :
    (admitted_pages_of config (70 ∷ []) ((90, 1) ∷ (30, 2) ∷ []) none ≡ 0)
    ⊎ FirstAdmitted config (70 ∷ []) ((90, 1) ∷ (30, 2) ∷ []) none
overshoot_bounded_example = overshoot_bounded config (70 ∷ []) ((90, 1) ∷ (30, 2) ∷ []) none

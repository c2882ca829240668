-- ===== src/RateLimit/Tests.antt =====
-- Runs of the limiters, and the theorems about them at concrete inputs.
use ocr_orchestrator.Common.{ℕ, List, ◌+◌, ◌≤◌, ◌≡◌, refl, false, some, [], ◌∷◌, arith}
use ocr_orchestrator.RateLimit.Breaker.{
  open_circuit, half_open, Config, Breaker, Op, allow, success, run,
}
use ocr_orchestrator.RateLimit.Breaker.Circuit.{Move, open_refuses, run-Move}
use ocr_orchestrator.RateLimit.Breaker.Probes.{
  probes_limited, lost_probes, admissions, history, successes_in,
}

-- The defaults of `CircuitBreaker`.
abbrev breaker_config : Config
breaker_config = record {
  window = 10_000_000;
  min_volume = 10;
  ratio_num = 1;
  ratio_den = 2;
  cooldown = 5_000_000;
  max_probes = 3;
  probe_successes = 2;
  ttl = 300_000_000;
}

abbrev open_breaker : Breaker
open_breaker = record {
  state = open_circuit;
  window_start = 0;
  failures = 6;
  successes = 4;
  opened_at = 1_000_000;
  probes = 0;
  probe_ok = 0;
  expires_at = 400_000_000;
}

abbrev full_breaker : Breaker
full_breaker = record open_breaker { state = half_open; probes = 3 }

open_refuses_example : (run breaker_config allow 2_000_500 (some open_breaker)).0.allowed ≡ false
open_refuses_example =
    (open_refuses breaker_config 2_000_500 open_breaker refl (omega arith) (omega arith)).0

run-Move_example :
    Move breaker_config success 7_000_000 full_breaker
      (run breaker_config success 7_000_000 (some full_breaker)).0.state
run-Move_example = run-Move breaker_config success 7_000_000 full_breaker (omega arith)

-- All three slots are taken; a success is reported, and a fourth request is let through.
abbrev late_report : List (Op × ℕ)
late_report = (allow, 7_000_000) ∷ (success, 7_500_000) ∷ (allow, 8_000_000) ∷ []

late_report_admits : admissions breaker_config late_report full_breaker ≡ 1
unfolding admissions run
late_report_admits = refl

probes_limited_example :
    (3 + admissions breaker_config late_report full_breaker
      ≤ (history breaker_config late_report full_breaker).probes + successes_in late_report)
    × ((history breaker_config late_report full_breaker).probes ≤ 3)
    × (3 + admissions breaker_config late_report full_breaker ≤ 3 + successes_in late_report)
unfolding run
probes_limited_example =
    probes_limited breaker_config late_report full_breaker refl (omega arith) (ground arith)

lost_probes_example :
    admissions breaker_config ((allow, 7_000_000) ∷ (allow, 200_000_000) ∷ []) full_breaker ≡ 0
lost_probes_example =
    (lost_probes breaker_config ((allow, 7_000_000) ∷ (allow, 200_000_000) ∷ []) full_breaker refl
      refl (ground arith)).0

-- ===== src/Worker/Examples.antt =====
-- The pipeline's theorems at concrete inputs.
use ocr_orchestrator.Common.{◌+◌, ◌≡◌, refl, none, some, true, false, [], ◌∷◌, arith}
use ocr_orchestrator.Queue.State.{PageState, predecessors, pending, layout_running}
use ocr_orchestrator.Queue.Store.{Call, init_job, transition}
use ocr_orchestrator.Queue.Store.Completion.{run}
use ocr_orchestrator.Queue.Store.Safety.{Narrow}
use ocr_orchestrator.Queue.Store.Alone.{Holds}
use ocr_orchestrator.RateLimit.Retry.{timeout_exception}
use ocr_orchestrator.Worker.Pipeline.{Env, World, degraded, replied, failed_with}
use ocr_orchestrator.Worker.Pipeline.Alone.{IsAlone}
use ocr_orchestrator.Worker.Pipeline.Told.{finals, ended}
use ocr_orchestrator.Worker.Process.{process_page}
use ocr_orchestrator.Worker.Process.Runs.{Ran, process_page-Ran}
use ocr_orchestrator.Worker.Process.Settles.{fits, process_page-Settled}

-- The layout succeeds, and the VLM times out on every attempt.
abbrev alone : Env
alone = record {
  ttl = 100;
  index = 0;
  final_attempt = false;
  handoff = false;
  reclaim = false;
  layout = replied "{}" "1.0";
  vlm = failed_with timeout_exception;
  others = λ n. [];
  now = λ n. 10;
  clock = λ n. 10;
  reached = λ n. 2;
  heard = λ n. 2;
  fallback_reason = λ a. "ReadTimeout";
  unavailable = λ a. "vlm unavailable";
  described = λ a. "ReadTimeout";
}

-- Another replica claims the other page before every access.
abbrev claim : Call
claim = record {
  index = 1;
  to = layout_running;
  allowed_from = none;
  fields = [];
  now = 10;
  clock = 10;
  reached = 2;
}

abbrev shared : Env
shared = record alone { others = λ n. claim ∷ [] }

abbrev world : World
unfolding init_job
world = record { redis = init_job 100 2 0 0; tick = 0; events = [] }

alone-IsAlone : IsAlone alone 100
alone-IsAlone = record { quiet = λ n. refl; early = λ n. omega arith; late = λ n. omega arith }

first-Holds : Holds 100 0 pending world.redis.pages
unfolding world
first-Holds = record { page = _; found = refl; at_state = refl; lasts = omega arith }

degraded_run :
    (process_page alone world).0 ≡ some (record { outcome = degraded; retry_after_ms = 0 })
unfolding process_page world run transition predecessors
degraded_run = refl

process_page-Settled_example :
    let r = process_page alone world in
    (t : PageState) × Holds 100 0 t r.1.redis.pages
    × (fits r.0 t ≡ true)
    × (finals r.1.events + ended pending ≡ finals world.events + ended t)
process_page-Settled_example =
    process_page-Settled alone 100 pending world alone-IsAlone (λ n. omega arith) first-Holds

claim-Narrow : Narrow claim
unfolding predecessors
claim-Narrow = (refl, tt)

process_page-Ran_example : Ran shared world (process_page shared world).1
process_page-Ran_example = process_page-Ran shared (λ n. (claim-Narrow, tt)) world

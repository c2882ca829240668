-- ===== src/Worker/Deliveries.antt =====
-- The theorems on the worker's loop and on its reaper at a concrete task.
use ocr_orchestrator.Common.{refl, true, false, none, [], ◌∷◌, arith}
use ocr_orchestrator.Queue.State.{pending}
use ocr_orchestrator.Queue.Store.{init_job}
use ocr_orchestrator.Queue.Store.Alone.{Holds}
use ocr_orchestrator.Queue.Tasks.{PageTask, text, lead, first_fields}
use ocr_orchestrator.Queue.Broker.{held}
use ocr_orchestrator.Queue.Broker.InMemory.{Lane, in_memory}
use ocr_orchestrator.Queue.Broker.Meets.{in_memory-Documented}
use ocr_orchestrator.Queue.Streams.{Queue}
use ocr_orchestrator.Queue.Streams as Streams
use ocr_orchestrator.RateLimit.Retry.{timeout_exception}
use ocr_orchestrator.Worker.Limits.{Settings}
use ocr_orchestrator.Worker.Pipeline.{Env, World, replied, failed_with}
use ocr_orchestrator.Worker.Pipeline.Alone.{IsAlone}
use ocr_orchestrator.Worker.Loop.{Site, handle_page}
use ocr_orchestrator.Worker.Loop as Loop
use ocr_orchestrator.Worker.Loop.Kept.{Lasts, handle_page_keeps}
use ocr_orchestrator.Worker.Reaper.{Ward, recover}
use ocr_orchestrator.Worker.Reaper as Reaper
use ocr_orchestrator.Worker.Reaper.Recovers.{Recovered, recover-Recovered}
use ocr_orchestrator.Worker.Dispatch.{start, run, polls, finishes}
use ocr_orchestrator.Worker.Dispatch.Resident.{Holding, run_resident}

abbrev settings : Settings
settings = record {
  degrade_after_ms = 90000;
  page_deadline_ms = 300000;
  saturation_pause_ms = 500;
  max_requeues = 50;
  is_explicit = false;
  stage_handoff = true;
  worker_concurrency = 4;
  worker_prefetch = 2;
  worker_lead_reserve = 1;
  worker_block_ms = 2000;
  worker_lead_poll_ms = 20;
  reaper_min_idle_ms = 30000;
  reaper_batch = 64;
}

abbrev task : PageTask
task = record {
  entry_id = 0;
  job_id = text "job";
  page_index = 0;
  enqueued_at_ms = 1000;
  trace_id = text "trace";
  recovered = false;
  stream = lead;
  attempt = 0;
  first_enqueued_at_ms = 1000;
}

abbrev queue : Queue Lane
queue = record {
  lead_lane =
      held (first_fields (text "job") (text "trace") 1000 0)
        (record { consumer = "a"; delivered_at = 0; deliveries = 1 })
      ∷ [];
  main_lane = [];
  poison = [];
  poison_total = 0;
}

-- The layout succeeds.
abbrev alone : Env
alone = record {
  ttl = 100;
  index = 0;
  final_attempt = false;
  handoff = false;
  reclaim = false;
  layout = replied "{}" "1.0";
  vlm = failed_with timeout_exception;
  others = λ n. [];
  now = λ n. 10;
  clock = λ n. 10;
  reached = λ n. 2;
  heard = λ n. 2;
  fallback_reason = λ a. "ReadTimeout";
  unavailable = λ a. "vlm unavailable";
  described = λ a. "ReadTimeout";
}

abbrev world : World
unfolding init_job
world = record { redis = init_job 100 2 0 0; tick = 0; events = [] }

handled-IsAlone : IsAlone (Loop.page_env in_memory settings 2000 task alone) 100
handled-IsAlone = record { quiet = λ n. refl; early = λ n. omega arith; late = λ n. omega arith }

reaped-IsAlone : IsAlone (Reaper.page_env in_memory settings 2000 task alone) 100
reaped-IsAlone = record { quiet = λ n. refl; early = λ n. omega arith; late = λ n. omega arith }

first-Holds : Holds 100 0 pending world.redis.pages
unfolding world
first-Holds = record { page = _; found = refl; at_state = refl; lasts = omega arith }

abbrev site : Site Lane
unfolding world
site = record {
  world = world;
  queue = queue;
  recorded = [];
  document_deleted = false;
  paused_ms = 0;
}

abbrev ward : Ward Lane
unfolding world
ward = record {
  world = world;
  queue = queue;
  stats = record {
    scans = 0;
    claimed = 0;
    requeued = 0;
    forced_terminal = 0;
    already_terminal = 0;
    expired = 0;
    leases_renewed = 0;
  };
}

handle_page_keeps_example :
    Lasts in_memory in_memory-Documented 2000 task settings alone 100 handled-IsAlone
      (handle_page in_memory settings 2000 task alone "" none site)
unfolding site
handle_page_keeps_example =
    handle_page_keeps in_memory in_memory-Documented 2000 task settings alone 100 handled-IsAlone ""
      none pending site (λ n. omega arith) (refl, refl) first-Holds (λ e. cc) tt

recover-Recovered_example :
    Recovered in_memory in_memory-Documented settings 2000 task alone 100 reaped-IsAlone
      (recover in_memory settings 2000 task alone "reclaimed" ward)
unfolding ward
recover-Recovered_example =
    recover-Recovered in_memory in_memory-Documented settings 2000 task alone 100 reaped-IsAlone
      "reclaimed" pending ward (refl, refl) first-Holds

abbrev streams : Streams.Env Lane
streams = record {
  consumer = "a";
  now = λ n. 100;
  meanwhile = λ n q. q;
  fault = λ n. none;
  written = λ n. 2;
  describe = λ e. "KeyError";
}

run_resident_example :
    Holding 4 (start in_memory settings streams queue)
    × Holding 5 (
        run in_memory settings
          (polls false streams ∷ finishes lead ∷ [])
          (start in_memory settings streams queue))
run_resident_example =
    run_resident in_memory in_memory-Documented settings streams queue
      (polls false streams ∷ finishes lead ∷ [])

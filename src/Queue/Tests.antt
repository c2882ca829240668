-- ===== src/Queue/Tests.antt =====
-- Runs of the page state store, and the theorems about it at concrete inputs.
use ocr_orchestrator.Common.{ℕ, ◌≡◌, refl, none, List, [], ◌∷◌, arith, All}
use ocr_orchestrator.Queue.State.{
  PageState, layout_running, layout_done, fallback_done, predecessors,
}
use ocr_orchestrator.Queue.Hashes.{Redis, total_of}
use ocr_orchestrator.Queue.Store.{Call, transition, init_job}
use ocr_orchestrator.Queue.Store.Healthy.{Prompt, Advances, transition-Advances, is_full}
use ocr_orchestrator.Queue.Store.Completion.{
  run, completions, PromptRun, completed_once, init_job-Healthy,
}
use ocr_orchestrator.Queue.Store.Safety.{AllFollow, Narrow, run-AllFollow, vanished}

abbrev call : ℕ → ℕ → PageState → Call
call at i to = record {
  index = i;
  to = to;
  allowed_from = none;
  fields = ("layout", "{}") ∷ [];
  now = at;
  clock = at;
  reached = 2;
}

-- Two pages with a TTL of 100; the sweep falls due at 70 and at 130.
abbrev calls : List Call
calls =
    call 10 0 layout_running
    ∷ call 40 0 layout_done
    ∷ call 70 1 layout_running
    ∷ call 75 1 layout_running
    ∷ call 80 0 fallback_done
    ∷ call 130 1 PageState.failed
    ∷ []

abbrev start : Redis
unfolding init_job
start = init_job 100 2 0 0

runs : (completions 100 calls start ≡ 1) × (is_full (run 100 calls start) ≡ 1)
unfolding run completions transition start predecessors
runs = (refl, refl)

unfinished : is_full (run 100 (call 10 0 layout_running ∷ []) start) ≡ 0
unfolding run transition start predecessors
unfinished = refl

prompt_calls : PromptRun 100 0 calls (init_job 100 2 0 0)
unfolding transition init_job predecessors
prompt_calls = ground arith

completed_once_example :
    completions 100 calls (init_job 100 2 0 0) ≡ is_full (run 100 calls (init_job 100 2 0 0))
completed_once_example = completed_once 100 2 0 calls (omega arith) prompt_calls

first-Prompt : Prompt 100 0 (call 10 0 layout_running) (init_job 100 2 0 0)
unfolding init_job predecessors
first-Prompt = ground arith

transition-Advances_example :
    Advances 100 0
      (call 10 0 layout_running)
      (init_job 100 2 0 0)
      (transition 100 (call 10 0 layout_running) (init_job 100 2 0 0))
transition-Advances_example =
    transition-Advances 100 0 (call 10 0 layout_running) (init_job 100 2 0 0)
      (init_job-Healthy 100 2 0) first-Prompt

Narrow-calls : All Narrow calls
unfolding predecessors
Narrow-calls = ground arith

run-AllFollow_example :
    AllFollow (init_job 100 2 0 0).pages (run 100 calls (init_job 100 2 0 0)).pages
run-AllFollow_example = run-AllFollow 100 calls (init_job 100 2 0 0) Narrow-calls

-- The job hash is lost, and its last page completes.
abbrev lost : Redis
unfolding init_job
lost = record { job = none; pages = (init_job 100 1 0 0).pages }

vanished_example : (completions 100 calls lost ≡ 0) × (total_of (run 100 calls lost).job ≡ none)
unfolding lost
vanished_example = vanished 100 calls lost refl

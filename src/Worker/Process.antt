-- ===== src/Worker/Process.antt =====
-- app/worker/pipeline.py: `process_page`.
pub mod Runs
pub mod Settles
use ocr_orchestrator.Common.{
  ℕ, Bool, true, false, not, ◌&&◌, Option, none, some, List, [], ◌∷◌, String, if◌then◌else◌,
}
use ocr_orchestrator.Queue.State.{
  PageState, pending, layout_running, layout_done, vlm_running, done, is_terminal, is_running,
  state_eq,
}
use ocr_orchestrator.RateLimit.Retry.{Error, circuit_open, rate_limit_timeout}
use ocr_orchestrator.Worker.Pipeline.{
  Outcome, completed, resumed, already_terminal, owned_by_other, handed_off, saturated, page_failed,
  PageResult, Answer, replied, failed_with, interrupted, Event, page_partial, Env, World, get_page,
  move, emit, result, settle, degrade, release_claim, error_fields,
}

-- The two exceptions that mean that the model was not reached, and how long they say to wait.
abbrev pub unreached : Answer → Option ℕ
unreached (failed_with (circuit_open ms)) = some ms
unreached (failed_with (rate_limit_timeout ms)) = some ms
unreached _ = none

-- `except (RateLimitTimeout, CircuitOpen)`, of the outer try.
abbrev pub put_back : Env → Answer → ℕ → World → Option PageResult × World
put_back v cause ms w =
    let released = release_claim v w in
    if v.final_attempt
    then result page_failed
        (settle v PageState.failed (error_fields (v.unavailable cause)) released).1
    else (some (record { outcome = saturated; retry_after_ms = ms }), released)

-- `except Exception`, of the outer try.
abbrev pub give_up : Env → Answer → World → Option PageResult × World
give_up v cause w =
    result page_failed (settle v PageState.failed (error_fields (v.described cause)) w).1

-- The inner try around the VLM call: a page that was not reached holds out unless this is its final
-- attempt, and every other failure degrades it.
abbrev pub vlm_failed : Env → Option ℕ → World → Option PageResult × World
vlm_failed v none w = degrade v w
vlm_failed v (some ms) w = if v.final_attempt then degrade v w else put_back v v.vlm ms w

abbrev pub after_vlm : Env → Outcome → Answer → World → Option PageResult × World
after_vlm v finished (replied json confidence) w =
    let fields = ("vlm", json) ∷ ("confidence", confidence) ∷ ("degraded", "0") ∷ [] in
    result finished (settle v done fields w).1
after_vlm v finished (failed_with e) w = vlm_failed v (unreached (failed_with e)) w
after_vlm v finished interrupted w = vlm_failed v none w

-- Stage 2.
abbrev pub vlm_stage : Env → Outcome → World → Option PageResult × World
vlm_stage v finished w =
    let claim = move v vlm_running none [] w in
    if claim.0.ok then after_vlm v finished v.vlm claim.1 else result owned_by_other claim.1

abbrev pub layout_failed : Env → Option ℕ → World → Option PageResult × World
layout_failed v none w = give_up v v.layout w
layout_failed v (some ms) w = put_back v v.layout ms w

-- `none` is an interruption that leaves `process_page`.
abbrev pub after_layout : Env → Answer → World → Option PageResult × World
after_layout v (replied json confidence) w =
    let committed = move v layout_done none (("layout", json) ∷ []) w in
    let told = emit v (page_partial v.index layout_done) committed.0 committed.1 in
    if v.handoff then result handed_off told else vlm_stage v completed told
after_layout v (failed_with e) w = layout_failed v (unreached (failed_with e)) w
after_layout v interrupted w = (none, w)

-- Stage 1.
abbrev pub layout_stage : Env → World → Option PageResult × World
layout_stage v w =
    let claim = move v layout_running none [] w in
    if claim.0.ok then after_layout v v.layout claim.1 else result owned_by_other claim.1

abbrev pub stages : Env → PageState → World → Option PageResult × World
stages v pending w = layout_stage v w
stages v layout_done w = vlm_stage v resumed w
stages v _ w = vlm_stage v completed w

-- The checks behind the rollback of an abandoned claim.
abbrev pub reread : Env → Option PageState → World → Option PageResult × World
reread v none w = result page_failed w
reread v (some s) w =
    if is_terminal s
    then result already_terminal w
    else if is_running s
    then result owned_by_other w
    else stages v s w

abbrev pub take_over : Env → World → Option PageResult × World
take_over v w = let g = get_page v (release_claim v w) in reread v g.0 g.1

abbrev pub dispatch : Env → Option PageState → World → Option PageResult × World
dispatch v none w = result page_failed w
dispatch v (some s) w =
    if is_terminal s
    then result already_terminal w
    else if is_running s
    then (if v.reclaim then take_over v w else result owned_by_other w)
    else stages v s w

-- `process_page`
unfoldable pub process_page : Env → World → Option PageResult × World
process_page v w = let g = get_page v w in dispatch v g.0 g.1

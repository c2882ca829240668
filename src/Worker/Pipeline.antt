-- ===== src/Worker/Pipeline.antt =====
-- app/worker/pipeline.py: one page through its stages, on the store of its job. Other replicas may
-- make any calls of the store before each access; what the two model calls answer is an input. The
-- commands of the store itself succeed. Logs and the text of `detail` are left out.
pub mod Alone
pub mod Told
use ocr_orchestrator.Common.{
  ℕ, suc, ◌+◌, Bool, true, false, not, ◌&&◌, Option, none, some, List, [], ◌∷◌, ◌++◌, String,
  if◌then◌else◌, get_elem?, take,
}
use ocr_orchestrator.Queue.State.{
  PageState, pending, layout_running, layout_done, vlm_running, done, fallback_done, contains,
  transitions, is_terminal, is_running, reclaim_target, state_eq,
}
use ocr_orchestrator.Queue.Hashes.{PageHash, Redis, live_page}
use ocr_orchestrator.Queue.Store.{Call, TransitionResult, transition, completed_job}
use ocr_orchestrator.Queue.Store.Completion.{run}
use ocr_orchestrator.RateLimit.Retry.{Error, circuit_open, rate_limit_timeout}

pub data Outcome : Type 0 where
  completed resumed already_terminal owned_by_other degraded : Outcome
  handed_off saturated page_failed : Outcome

-- `PageResult`; the time is that of SATURATED, in milliseconds, and 0 else.
pub record PageResult : Type 0 where
  pub outcome : Outcome
  pub retry_after_ms : ℕ

-- A model call returns its JSON and its confidence, raises an Exception, or is interrupted by another
-- BaseException.
pub data Answer : Type 0 where
  replied : (json confidence : String) → Answer
  failed_with : Error → Answer
  interrupted : Answer

pub data Event : Type 0 where
  page_partial page_final : (index : ℕ) → PageState → Event
  job_complete : (total done : Option ℕ) → Event

-- The page, the arguments of `process_page`, and what is outside of it at each access of the store:
-- the calls of other replicas before it, the two clocks, how far a sweep gets, and how many of the
-- publications of an emission succeed (none of them without a publisher).
pub record Env : Type 0 where
  pub ttl : ℕ
  pub index : ℕ
  pub final_attempt : Bool
  pub handoff : Bool
  pub reclaim : Bool
  pub layout : Answer
  pub vlm : Answer
  pub others : ℕ → List Call
  pub now : ℕ → ℕ
  pub clock : ℕ → ℕ
  pub reached : ℕ → ℕ
  pub heard : ℕ → ℕ
  -- `fallback_reason`, and the two texts of `error`.
  pub fallback_reason : Answer → String
  pub unavailable : Answer → String
  pub described : Answer → String

pub record World : Type 0 where
  pub redis : Redis
  pub tick : ℕ
  pub events : List Event

-- The other replicas' calls before the next access.
abbrev pub enter : Env → World → World
enter v w = record w { redis = run v.ttl (v.others w.tick) w.redis; tick = suc w.tick }

abbrev pub state_in : Option (Option PageHash) → Option PageState
state_in (some (some p)) = some p.state
state_in _ = none

abbrev pub alive_at : ℕ → Option (Option PageHash) → Option (Option PageHash)
alive_at clock none = none
alive_at clock (some p) = some (live_page clock p)

-- The state that `get_page` reads.
abbrev pub get_page : Env → World → Option PageState × World
get_page v w =
    let e = enter v w in (state_in (alive_at (v.clock w.tick) (get_elem? e.redis.pages v.index)), e)

abbrev pub call_of : Env → ℕ → PageState → Option (List PageState) → List (String × String) → Call
call_of v n to allowed fields = record {
  index = v.index;
  to = to;
  allowed_from = allowed;
  fields = fields;
  now = v.now n;
  clock = v.clock n;
  reached = v.reached n;
}

-- Every state has a predecessor, so that the ValueError of `none` does not come.
abbrev pub applied :
    PageState → World → Option (TransitionResult × Redis) → TransitionResult × World
applied to w none = (
  record { ok = false; observed = none; done_count = none; total_pages = none; requested = to },
  w,
)
applied to w (some (t, r)) = (t, record w { redis = r })

abbrev pub move :
    Env
    → PageState
    → Option (List PageState)
    → List (String × String)
    → World
    → TransitionResult × World
move v to allowed fields w =
    let e = enter v w in
    applied to e (transition v.ttl (call_of v w.tick to allowed fields) e.redis)

-- `_emit`: the event, and the completion of the job behind it, for the caller that made the
-- transition; the first publication that fails ends it.
abbrev pub publications : Event → TransitionResult → List Event
publications event t =
    event ∷ (if completed_job t then job_complete t.total_pages t.done_count ∷ [] else [])

abbrev pub emit : Env → Event → TransitionResult → World → World
emit v event t w =
    if t.ok
    then record w { events = w.events ++ take (v.heard w.tick) (publications event t) }
    else w

abbrev pub result : Outcome → World → Option PageResult × World
result o w = (some (record { outcome = o; retry_after_ms = 0 }), w)

-- A terminal transition and its page.final.
abbrev pub settle : Env → PageState → List (String × String) → World → TransitionResult × World
settle v to fields w =
    let m = move v to none fields w in (m.0, emit v (page_final v.index to) m.0 m.1)

abbrev pub fallback_fields : String → List (String × String)
fallback_fields reason =
    ("degraded", "1") ∷ ("confidence", "0.4") ∷ ("fallback_reason", reason) ∷ []

-- `_degrade`
abbrev pub degrade : Env → World → Option PageResult × World
degrade v w =
    result degraded (settle v fallback_done (fallback_fields (v.fallback_reason v.vlm)) w).1

abbrev pub roll_back : Env → PageState → Option PageState → World → World
roll_back v s none w = w
roll_back v s (some target) w = (move v target (some (s ∷ [])) [] w).1

abbrev pub release : Env → Option PageState → World → World
release v none w = w
release v (some s) w = if is_running s then roll_back v s (reclaim_target s) w else w

-- `release_claim`
abbrev pub release_claim : Env → World → World
release_claim v w = let g = get_page v w in release v g.0 g.1

abbrev pub forced : Env → String → PageState → World → Option PageState × World
forced v reason s w =
    let degradable = contains (transitions s) fallback_done in
    let target = if degradable then fallback_done else PageState.failed in
    let fields = if degradable then fallback_fields reason else ("error", reason) ∷ [] in
    let m = settle v target fields w in (if m.0.ok then some target else m.0.observed, m.1)

abbrev pub force_state : Env → String → Option PageState → World → Option PageState × World
force_state v reason none w = (none, w)
force_state v reason (some s) w = if is_terminal s then (some s, w) else forced v reason s w

-- `force_terminal`; `none` is "MISSING".
unfoldable pub force_terminal : Env → String → World → Option PageState × World
force_terminal v reason w = let g = get_page v w in force_state v reason g.0 g.1

abbrev pub error_fields : String → List (String × String)
error_fields reason = ("error", reason) ∷ []

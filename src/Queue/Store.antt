-- ===== src/Queue/Store.antt =====
-- app/queue/state.py: the transition script, and the methods of `PageStateStore`. Times are in milliseconds. `now` is the caller's clock,
-- which the script compares and stores; `clock` is the server's, by which keys expire.
mod Pages
mod Cases
pub mod Alone
pub mod Healthy
pub mod Completion
pub mod Safety
use ocr_orchestrator.Common.{
  ℕ, zero, suc, ◌+◌, ◌*◌, Bool, true, false, not, ◌&&◌, Option, none, some, List, [], ◌∷◌, String,
  ltb, leb, if◌then◌else◌, get_elem?, set, map,
}
use ocr_orchestrator.Queue.State.{
  PageState, pending, JobState, running, contains, state_eq, is_terminal, predecessors,
}
use ocr_orchestrator.Queue.Hashes.{
  PageHash, JobHash, Redis, is_alive, live_page, live_job, evict, hset, hset_all, pexpire_page,
  pexpire_job, new_job, or_new, or_zero, total_of, renewed_of, sweep_due, mark_renewed, count_done,
  done_of,
}

-- What the script returns; `none` stands for 'MISSING' and for -1.
pub record Reply : Type 0 where
  pub ok : Bool
  pub observed : Option PageState
  pub done_count : Option ℕ
  pub total_pages : Option ℕ
  pub sweep_pages : ℕ

-- One call of `transition`: its arguments, the two clocks, and how many commands of a sweep take
-- effect before the pipeline fails, if it does.
pub record Call : Type 0 where
  pub index : ℕ
  pub to : PageState
  pub allowed_from : Option (List PageState)
  pub fields : List (String × String)
  pub now : ℕ
  pub clock : ℕ
  pub reached : ℕ

abbrev pub reject : Option PageState → Reply
reject seen = record {
  ok = false;
  observed = seen;
  done_count = none;
  total_pages = none;
  sweep_pages = 0;
}

abbrev pub commit_page : ℕ → Call → PageHash → PageHash
commit_page ttl c p = record p {
  state = c.to;
  updated_at = c.now;
  fields = hset_all c.fields p.fields;
  expires_at = some (c.clock + ttl);
}

-- The script's writes to the job hash, in their order.
abbrev pub commit_job : ℕ → Call → Option JobHash → Option JobHash
commit_job ttl c job =
    count_done (is_terminal c.to) (mark_renewed ttl c.now (pexpire_job (c.clock + ttl) job))

commit : ℕ → Call → Redis → PageHash → Reply × Redis
commit ttl c r p =
    let touched = pexpire_job (c.clock + ttl) r.job in
    let after = commit_job ttl c r.job in
    (
      record {
        ok = true;
        observed = some c.to;
        done_count = if is_terminal c.to then done_of after else none;
        total_pages = if is_terminal c.to then total_of after else none;
        sweep_pages = if sweep_due ttl c.now touched then or_zero (total_of touched) else 0;
      },
      record { job = after; pages = set r.pages c.index (some (commit_page ttl c p)) },
    )

attempt : ℕ → List PageState → Call → Redis → Option (Option PageHash) → Reply × Redis
unfolding commit
attempt ttl sources c r none = (reject none, r)
attempt ttl sources c r (some none) = (reject none, r)
attempt ttl sources c r (some (some p)) =
    if contains sources p.state then commit ttl c r p else (reject (some p.state), r)

-- `_TRANSITION_LUA`
pub transition_script : ℕ → List PageState → Call → Redis → Reply × Redis
unfolding attempt evict
transition_script ttl sources c r =
    let live = evict c.clock r in attempt ttl sources c live (get_elem? live.pages c.index)

-- `_renew_job_pages`: the first `n` pages, of which the pipeline gets to the first `reached`.
pub renew_pages : (at n reached : ℕ) → List (Option PageHash) → List (Option PageHash)
renew_pages at zero reached ps = ps
renew_pages at (suc n) zero ps = ps
renew_pages at (suc n) (suc reached) [] = []
renew_pages at (suc n) (suc reached) (p ∷ ps) = pexpire_page at p ∷ renew_pages at n reached ps

pub record TransitionResult : Type 0 where
  pub ok : Bool
  pub observed : Option PageState
  pub done_count : Option ℕ
  pub total_pages : Option ℕ
  pub requested : PageState

abbrev pub sources_for : PageState → Option (List PageState) → List PageState
sources_for to none = predecessors to
sources_for to (some allowed) = allowed

finish : ℕ → Call → Reply × Redis → TransitionResult × Redis
unfolding renew_pages
finish ttl c (reply, r) = (
  record {
    ok = reply.ok;
    observed = reply.observed;
    done_count = reply.done_count;
    total_pages = reply.total_pages;
    requested = c.to;
  },
  record r { pages = renew_pages (c.clock + ttl) reply.sweep_pages c.reached r.pages },
)

call_script : ℕ → List PageState → Call → Redis → Option (TransitionResult × Redis)
unfolding transition_script finish
call_script ttl [] c r = none
call_script ttl (s ∷ rest) c r = some (finish ttl c (transition_script ttl (s ∷ rest) c r))

-- `transition`; `none` is the ValueError for an empty set of sources.
unfoldable pub transition : ℕ → Call → Redis → Option (TransitionResult × Redis)
unfolding call_script
transition ttl c r = call_script ttl (sources_for c.to c.allowed_from) c r

abbrev observed_eq : Option PageState → PageState → Bool
observed_eq none s = false
observed_eq (some t) s = state_eq t s

abbrev pub already_applied : TransitionResult → Bool
already_applied t = not t.ok && observed_eq t.observed t.requested

abbrev reached_total : Option ℕ → Option ℕ → Bool
reached_total (some total) (some count) = ltb 0 total && leb total count
reached_total _ _ = false

abbrev pub completed_job : TransitionResult → Bool
completed_job t = t.ok && reached_total t.total_pages t.done_count

init_pages : (now at index n : ℕ) → List (Option PageHash)
init_pages now at index zero = []
init_pages now at index (suc n) =
    some (record {
      page_index = index;
      state = pending;
      attempts = 0;
      updated_at = now;
      fields = [];
      expires_at = some at;
    })
    ∷ init_pages now at (suc index) n

-- `init_job`, one transaction over fresh keys.
unfoldable pub init_job : (ttl total now clock : ℕ) → Redis
unfolding init_pages
init_job ttl total now clock = record {
  job = some (record {
    total_pages = some total;
    done_count = some 0;
    job_state = some running;
    created_at = some now;
    pages_renewed_at = some now;
    expires_at = some (clock + ttl);
  });
  pages = init_pages now (clock + ttl) 0 total;
}

-- `progress`, on the keys that are alive.
abbrev pub progress : ℕ → Redis → ℕ × ℕ
progress clock r = let job = live_job clock r.job in (or_zero (done_of job), or_zero (total_of job))

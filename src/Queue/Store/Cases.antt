-- ===== src/Queue/Store/Cases.antt =====
-- The three ways a call of `transition` can end.
use mathlib.Core.Path.{subst}
use ocr_orchestrator.Common.{
  ℕ, ◌+◌, ◌≡◌, refl, inl, inr, true, false, Option, none, some, List, [], ◌∷◌, Bool-cases,
  get_elem?, set, if◌then◌else◌,
}
use ocr_orchestrator.Queue.State.{PageState, contains, is_terminal}
use ocr_orchestrator.Queue.Hashes.{
  Redis, PageHash, evict, done_of, total_of, sweep_due, or_zero, pexpire_job,
}
use ocr_orchestrator.Queue.Store.{
  Call, TransitionResult, transition, transition_script, call_script, finish, attempt, sources_for,
  commit_page, commit_job, renew_pages,
}

abbrev pub rejected : Option PageState → PageState → TransitionResult
rejected seen to = record {
  ok = false;
  observed = seen;
  done_count = none;
  total_pages = none;
  requested = to;
}

abbrev pub committed : ℕ → Call → Redis → PageHash → TransitionResult
committed ttl c r p = record {
  ok = true;
  observed = some c.to;
  done_count = if is_terminal c.to then done_of (commit_job ttl c r.job) else none;
  total_pages = if is_terminal c.to then total_of (commit_job ttl c r.job) else none;
  requested = c.to;
}

abbrev pub sweep_size : ℕ → Call → Redis → ℕ
sweep_size ttl c r =
    let touched = pexpire_job (c.clock + ttl) r.job in
    if sweep_due ttl c.now touched then or_zero (total_of touched) else 0

abbrev pub committed_store : ℕ → Call → Redis → PageHash → Redis
committed_store ttl c r p = record {
  job = commit_job ttl c r.job;
  pages =
      renew_pages (c.clock + ttl) (sweep_size ttl c r) c.reached
        (set r.pages c.index (some (commit_page ttl c p)));
}

-- What the page at the call's index is, against the sources that the call accepts.
pub data Ends (ttl : ℕ) (sources : List PageState) (c : Call) (r : Redis)
    : Option (TransitionResult × Redis) → Type 0 where
  raises : Ends ttl sources c r none
  rejects : (seen : Option PageState) → Ends ttl sources c r (some (rejected seen c.to, r))
  commits :
      (p : PageHash)
      → get_elem? r.pages c.index ≡ some (some p)
      → contains sources p.state ≡ true
      → Ends ttl sources c r (some (committed ttl c r p, committed_store ttl c r p))

attempt-Ends :
    (ttl : ℕ) (sources : List PageState) (c : Call) (r : Redis) (found : Option (Option PageHash))
    → get_elem? r.pages c.index ≡ found
    → Ends ttl sources c r (some (finish ttl c (attempt ttl sources c r found)))
unfolding attempt finish
attempt-Ends ttl sources c r none e = rejects none
attempt-Ends ttl sources c r (some none) e = rejects none
attempt-Ends ttl sources c r (some (some p)) e = elim (Bool-cases (contains sources p.state)) [
  | inl legal ↦ rw legal (commits p e legal)
  | inr illegal ↦ rw illegal (rejects (some p.state))
]

script-Ends :
    (ttl : ℕ) (sources : List PageState) (c : Call) (r : Redis)
    → Ends ttl sources c (evict c.clock r) (some (finish ttl c (transition_script ttl sources c r)))
unfolding transition_script
script-Ends ttl sources c r = attempt-Ends ttl sources c (evict c.clock r) _ refl

call-Ends :
    (ttl : ℕ) (sources : List PageState) (c : Call) (r : Redis)
    → Ends ttl sources c (evict c.clock r) (call_script ttl sources c r)
unfolding call_script
call-Ends ttl [] c r = raises
call-Ends ttl (s ∷ rest) c r = script-Ends ttl (s ∷ rest) c r

-- The script first sees the keys that have not run out.
pub transition-Ends :
    (ttl : ℕ) (c : Call) (r : Redis)
    → Ends ttl (sources_for c.to c.allowed_from) c (evict c.clock r) (transition ttl c r)
unfolding transition
transition-Ends ttl c r = call-Ends ttl (sources_for c.to c.allowed_from) c r

pub transition-Ends_live :
    (ttl : ℕ) (c : Call) (r : Redis)
    → evict c.clock r ≡ r
    → Ends ttl (sources_for c.to c.allowed_from) c r (transition ttl c r)
transition-Ends_live ttl c r e =
    subst (λ q. Ends ttl (sources_for c.to c.allowed_from) c q (transition ttl c r)) e
      (transition-Ends ttl c r)

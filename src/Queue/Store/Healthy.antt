-- ===== src/Queue/Store/Healthy.antt =====
-- One call of `transition` on a job all of whose keys are there: what it keeps of the job's count
-- and of the time up to which its keys last.
use ocr_orchestrator.Common.{
  ℕ, ◌+◌, ◌*◌, ◌≤◌, ◌≡◌, refl, sym, ◌∙◌, inl, inr, true, false, Option, none, some, List, [], ◌∷◌,
  arith, Bool-cases, get_elem?, set, length, length-set, if◌then◌else◌, ◌==◌, All,
}
use ocr_orchestrator.Queue.State.{PageState, contains, is_terminal, can_transition}
use ocr_orchestrator.Queue.State.Table.{state_eq_iff}
use ocr_orchestrator.Queue.Hashes.{Redis, JobHash, PageHash, evict, or_new, sweep_due, pexpire_job}
use ocr_orchestrator.Queue.Store.{
  Call, TransitionResult, transition, sources_for, commit_page, completed_job,
}
use ocr_orchestrator.Queue.Store.Pages.{
  count_terminal, Until, Kept, live_pages-Kept, All-Kept-mono, set-Kept, count_terminal-set,
  length-renew_pages, count_terminal-renew_pages, renew_pages-Kept, renew_none-Kept,
  count_terminal-lt,
}
use ocr_orchestrator.Queue.Store.Cases.{
  Ends, raises, rejects, commits, transition-Ends_live, committed, committed_store, sweep_size,
}

-- The store after a call: unchanged where the call raised.
abbrev pub after : Redis → Option (TransitionResult × Redis) → Redis
after r none = r
after r (some (t, q)) = q

abbrev pub completions_of : Option (TransitionResult × Redis) → ℕ
completions_of none = 0
completions_of (some (t, q)) = if completed_job t then 1 else 0

-- The time of the last committed transition.
abbrev pub progressed : ℕ → Call → Option (TransitionResult × Redis) → ℕ
progressed last c none = last
progressed last c (some (t, q)) = if t.ok then c.now else last

-- One, if every page of the job is terminal.
abbrev pub is_full : Redis → ℕ
is_full r = if count_terminal r.pages == length r.pages then 1 else 0

-- What init_job sets up and every call keeps: the job hash has the true total and the true count
-- of terminal pages, and all keys outlive the last progress by half a TTL.
pub record Healthy (ttl last : ℕ) (r : Redis) : Type 0 where
  pub job : JobHash
  pub renewed : ℕ
  pub has_job : r.job ≡ some job
  pub has_total : job.total_pages ≡ some (length r.pages)
  pub has_count : job.done_count ≡ some (count_terminal r.pages)
  pub has_renewed : job.pages_renewed_at ≡ some renewed
  pub past : renewed ≤ last
  pub recent : 2 * last ≤ 2 * renewed + ttl
  pub kept_job : Until (renewed + ttl) job.expires_at
  pub kept_pages : All (Kept (renewed + ttl)) r.pages

-- A call whose clocks agree, made at most half a TTL after the last progress, whose sweep gets
-- through, and which accepts only sources that the table allows.
pub record Prompt (ttl last : ℕ) (c : Call) (r : Redis) : Type 0 where
  pub same_clock : c.clock ≡ c.now
  pub later : last ≤ c.now
  pub soon : 2 * c.now ≤ 2 * last + ttl
  pub swept : length r.pages ≤ c.reached
  pub narrow : All (λ s. can_transition s c.to ≡ true) (sources_for c.to c.allowed_from)

evict-Healthy :
    (ttl last clock : ℕ) (r : Redis)
    → Healthy ttl last r
    → 2 * clock ≤ 2 * last + ttl
    → evict clock r ≡ r
unfolding evict
evict-Healthy ttl last clock r h soon =
    ground (arith, live_pages-Kept (h.renewed + ttl) clock r.pages)

source_open :
    (to : PageState) (sources : List PageState) (s : PageState)
    → All (λ s. can_transition s to ≡ true) sources
    → contains sources s ≡ true
    → is_terminal s ≡ false
source_open to [] s a e = ground arith
source_open to (x ∷ xs) s a e = ground (arith, state_eq_iff x s, source_open to xs s)

sweep_due_touched :
    (ttl now at : ℕ) (job : Option JobHash)
    → sweep_due ttl now (pexpire_job at job) ≡ sweep_due ttl now job
sweep_due_touched ttl now at none = refl
sweep_due_touched ttl now at (some j) = refl

-- The effect of a committed call on a healthy store.
module _ (ttl last : ℕ) (c : Call) (r : Redis) (p : PageHash) (h : Healthy ttl last r)
    (ready : Prompt ttl last c r) (found : get_elem? r.pages c.index ≡ some (some p))
    (live : is_terminal p.state ≡ false) where
  next : Redis
  next = committed_store ttl c r p

  length-next : length next.pages ≡ length r.pages
  unfolding next
  length-next = length-renew_pages _ _ _ _ ∙ length-set r.pages c.index (some (commit_page ttl c p))

  count_terminal-next :
      count_terminal next.pages ≡ (if is_terminal c.to then 1 else 0) + count_terminal r.pages
  unfolding next
  count_terminal-next =
      count_terminal-renew_pages _ _ _ _
      ∙ count_terminal-set r.pages c.index p (commit_page ttl c p) found live

  written-Kept :
      (t : ℕ)
      → t ≤ h.renewed + ttl
      → t ≤ c.clock + ttl
      → All (Kept t) (set r.pages c.index (some (commit_page ttl c p)))
  written-Kept t lo hi =
      set-Kept t r.pages c.index (some (commit_page ttl c p)) hi
        (All-Kept-mono t (h.renewed + ttl) r.pages lo h.kept_pages)

  next_renewed : ℕ
  next_renewed = if sweep_due ttl c.now r.job then c.now else h.renewed

  sweep_size_due : sweep_due ttl c.now r.job ≡ true → sweep_size ttl c r ≡ length r.pages
  sweep_size_due due = ground (arith, sweep_due_touched ttl c.now (c.clock + ttl) r.job)

  sweep_size_fresh : sweep_due ttl c.now r.job ≡ false → sweep_size ttl c r ≡ 0
  sweep_size_fresh fresh = ground (arith, sweep_due_touched ttl c.now (c.clock + ttl) r.job)

  next-Kept : All (Kept (next_renewed + ttl)) next.pages
  unfolding next next_renewed
  next-Kept = elim (Bool-cases (sweep_due ttl c.now r.job)) [
    | inl due ↦ rw due (
        renew_pages-Kept (c.now + ttl) (c.clock + ttl) (sweep_size ttl c r) c.reached _
          (sweep_size_due due ∙ sym (length-set r.pages c.index _))
          (omega (arith, sweep_size_due due, ready.swept)) (omega (arith, ready.same_clock))
          (written-Kept 0 (omega arith) (omega arith)))
    | inr fresh ↦ rw fresh (
        renew_none-Kept (h.renewed + ttl) (c.clock + ttl) (sweep_size ttl c r) c.reached _
          (sweep_size_fresh fresh)
          (written-Kept (h.renewed + ttl) (omega arith) (omega (arith, ready.same_clock))))
  ]

  next-Healthy : Healthy ttl c.now next
  unfolding next next_renewed
  next-Healthy = record {
    job = or_new next.job;
    renewed = next_renewed;
    has_job = ground arith;
    has_total = ground (arith, length-next);
    has_count = ground (arith, count_terminal-next);
    has_renewed = ground arith;
    past = ground arith;
    recent = ground arith;
    kept_job = ground arith;
    kept_pages = next-Kept;
  }

  -- Exactly the commit that fills the job is reported as its completion.
  completion-next : is_full r + completions_of (some (committed ttl c r p, next)) ≡ is_full next
  unfolding next
  completion-next =
      ground (arith, count_terminal-next, length-next, count_terminal-lt r.pages c.index p)

-- What one call leaves behind.
pub record Advances (ttl last : ℕ) (c : Call) (r : Redis) (x : Option (TransitionResult × Redis))
    : Type 0 where
  pub healthy : Healthy ttl (progressed last c x) (after r x)
  pub same_length : length (after r x).pages ≡ length r.pages
  pub completion : is_full r + completions_of x ≡ is_full (after r x)

Ends-Advances :
    (ttl last : ℕ) (c : Call) (r : Redis) (x : Option (TransitionResult × Redis))
    → Healthy ttl last r
    → Prompt ttl last c r
    → Ends ttl (sources_for c.to c.allowed_from) c r x
    → Advances ttl last c r x
Ends-Advances ttl last c r x h ready raises = record {
  healthy = h;
  same_length = refl;
  completion = omega arith;
}
Ends-Advances ttl last c r x h ready (rejects seen) = record {
  healthy = h;
  same_length = refl;
  completion = ground arith;
}
Ends-Advances ttl last c r x h ready (commits p found legal) =
    let live = source_open c.to (sources_for c.to c.allowed_from) p.state ready.narrow legal in
    unfold next in
    record {
      healthy = next-Healthy ttl last c r p h ready found live;
      same_length = length-next ttl last c r p h ready found live;
      completion = completion-next ttl last c r p h ready found live;
    }

-- A prompt call keeps a healthy job healthy, whatever it does, keeps the number of pages, and
-- reports the completion of the job exactly when it makes the last open page terminal.
pub transition-Advances :
    (ttl last : ℕ) (c : Call) (r : Redis)
    → Healthy ttl last r
    → Prompt ttl last c r
    → Advances ttl last c r (transition ttl c r)
transition-Advances ttl last c r h ready = Ends-Advances ttl last c r _ h ready (
    transition-Ends_live ttl c r
      (evict-Healthy ttl last c.clock r h (omega (arith, ready.same_clock, ready.soon))))

-- ===== src/Queue/Store/Completion.antt =====
-- A job that keeps making progress neither loses a key nor its count, and it is reported complete
-- by one call, the one that makes its last page terminal.
use ocr_orchestrator.Common.{
  ℕ, zero, suc, ◌+◌, ◌<◌, ◌≡◌, refl, sym, ap, ◌∙◌, some, List, [], ◌∷◌, arith, length, All,
}
use ocr_orchestrator.Queue.Hashes.{Redis}
use ocr_orchestrator.Queue.Store.{Call, transition, init_job, init_pages}
use ocr_orchestrator.Queue.Store.Pages.{count_terminal, Kept}
use ocr_orchestrator.Queue.Store.Healthy.{
  after, completions_of, progressed, is_full, Healthy, Prompt, transition-Advances,
}

-- The workers' calls, in the order in which the server runs them.
unfoldable pub run : ℕ → List Call → Redis → Redis
run ttl [] r = r
run ttl (c ∷ cs) r = run ttl cs (after r (transition ttl c r))

unfoldable pub completions : ℕ → List Call → Redis → ℕ
completions ttl [] r = 0
completions ttl (c ∷ cs) r =
    let x = transition ttl c r in completions_of x + completions ttl cs (after r x)

abbrev pub PromptRun : (ttl last : ℕ) → List Call → Redis → Type 0
PromptRun ttl last [] r = Unit
PromptRun ttl last (c ∷ cs) r =
    let x = transition ttl c r in
    Prompt ttl last c r × PromptRun ttl (progressed last c x) cs (after r x)

run-completions :
    (ttl last : ℕ) (cs : List Call) (r : Redis)
    → Healthy ttl last r
    → PromptRun ttl last cs r
    → (length (run ttl cs r).pages ≡ length r.pages)
      × (is_full r + completions ttl cs r ≡ is_full (run ttl cs r))
unfolding run completions
run-completions ttl last [] r h ready = (refl, omega arith)
run-completions ttl last (c ∷ cs) r h ready =
    let step = transition-Advances ttl last c r h ready.0 in
    let rest =
      run-completions ttl (progressed last c (transition ttl c r)) cs (after r (transition ttl c r))
        step.healthy ready.1 in
    (rest.0 ∙ step.same_length, omega (arith, rest.1, step.completion))

init_pages_lem :
    (now at index n : ℕ)
    → (length (init_pages now at index n) ≡ n)
      × (count_terminal (init_pages now at index n) ≡ 0)
      × All (Kept at) (init_pages now at index n)
unfolding init_pages
init_pages_lem now at index zero = (refl, refl, tt)
init_pages_lem now at index (suc n) =
    let rest = init_pages_lem now at (suc index) n in
    (ap suc rest.0, omega (arith, rest.1), (omega arith, rest.2))

-- `init_job` sets up a healthy job.
pub init_job-Healthy : (ttl total now : ℕ) → Healthy ttl now (init_job ttl total now now)
unfolding init_job
init_job-Healthy ttl total now =
    let pages = init_pages_lem now (now + ttl) 0 total in
    record {
      job = _;
      renewed = now;
      has_job = refl;
      has_total = ap some (sym pages.0);
      has_count = ap some (sym pages.1);
      has_renewed = refl;
      past = omega arith;
      recent = omega arith;
      kept_job = omega arith;
      kept_pages = pages.2;
    }

-- After init_job of a job with at least one page, in any sequence of prompt calls, the number of
-- calls that report the job complete is 1 if all its pages are terminal at the end, and 0 if not.
pub completed_once :
    (ttl total now : ℕ) (cs : List Call)
    → 0 < total
    → PromptRun ttl now cs (init_job ttl total now now)
    → completions ttl cs (init_job ttl total now now)
      ≡ is_full (run ttl cs (init_job ttl total now now))
unfolding init_job
completed_once ttl total now cs pos ready =
    let pages = init_pages_lem now (now + ttl) 0 total in
    let all = run-completions ttl now cs _ (init_job-Healthy ttl total now) ready in
    ground (arith, pages.0, pages.1, all.1)

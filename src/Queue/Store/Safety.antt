-- ===== src/Queue/Store/Safety.antt =====
-- What no sequence of calls can do, whatever the clocks, the lost keys and the failed sweeps.
use mathlib.Core.Path.{subst}
use ocr_orchestrator.Common.{
  ℕ, zero, suc, ◌≡◌, refl, inl, inr, true, Option, none, some, List, [], ◌∷◌, arith, Bool-cases,
  get_elem?, set, map, All,
}
use ocr_orchestrator.Queue.State.{PageState, contains, can_transition}
use ocr_orchestrator.Queue.State.Table.{Steps, here, next, Steps-trans, state_eq_iff}
use ocr_orchestrator.Queue.Hashes.{
  Redis, JobHash, PageHash, evict, live_page, pexpire_page, total_of, live_job, is_alive,
}
use ocr_orchestrator.Queue.Store.{
  Call, TransitionResult, transition, sources_for, commit_page, renew_pages,
}
use ocr_orchestrator.Queue.Store.Cases.{Ends, raises, rejects, commits, transition-Ends}
use ocr_orchestrator.Queue.Store.Healthy.{after, completions_of}
use ocr_orchestrator.Queue.Store.Completion.{run, completions}

-- A page may be lost, never made; and it moves along the table only.
abbrev pub Follows : Option PageHash → Option PageHash → Type 0
Follows p none = Unit
Follows none (some q) = ⊥
Follows (some p) (some q) = Steps p.state q.state

abbrev pub AllFollow : List (Option PageHash) → List (Option PageHash) → Type 0
AllFollow [] [] = Unit
AllFollow (p ∷ ps) (q ∷ qs) = Follows p q × AllFollow ps qs
AllFollow _ _ = ⊥

Follows-refl : (p : Option PageHash) → Follows p p
Follows-refl none = tt
Follows-refl (some p) = here

AllFollow-refl : (ps : List (Option PageHash)) → AllFollow ps ps
AllFollow-refl [] = tt
AllFollow-refl (p ∷ ps) = (Follows-refl p, AllFollow-refl ps)

Follows-trans : (p q r : Option PageHash) → Follows p q → Follows q r → Follows p r
Follows-trans p q none f g = tt
Follows-trans p none (some r) f g = absurd g
Follows-trans none (some q) (some r) f g = absurd f
Follows-trans (some p) (some q) (some r) f g = Steps-trans f g

AllFollow-trans :
    (ps qs rs : List (Option PageHash)) → AllFollow ps qs → AllFollow qs rs → AllFollow ps rs
AllFollow-trans [] [] rs f g = g
AllFollow-trans [] (q ∷ qs) rs f g = absurd f
AllFollow-trans (p ∷ ps) [] rs f g = absurd f
AllFollow-trans (p ∷ ps) (q ∷ qs) [] f g = absurd g
AllFollow-trans (p ∷ ps) (q ∷ qs) (r ∷ rs) f g =
    (Follows-trans p q r f.0 g.0, AllFollow-trans ps qs rs f.1 g.1)

Follows-live_page : (clock : ℕ) (p : Option PageHash) → Follows p (live_page clock p)
Follows-live_page clock none = tt
Follows-live_page clock (some p) = elim (Bool-cases (is_alive clock p.expires_at)) [
  | inl alive ↦ rw alive here
  | inr gone ↦ rw gone tt
]

AllFollow-live_page :
    (clock : ℕ) (ps : List (Option PageHash)) → AllFollow ps (map (live_page clock) ps)
AllFollow-live_page clock [] = tt
AllFollow-live_page clock (p ∷ ps) = (Follows-live_page clock p, AllFollow-live_page clock ps)

same_state :
    (x p : PageHash)
    → ◌≡◌ {A = Option (Option PageHash)} (some (some x)) (some (some p))
    → p.state ≡ x.state
same_state x p e = ground arith

AllFollow-set :
    (ps : List (Option PageHash)) (i : ℕ) (p q : PageHash)
    → get_elem? ps i ≡ some (some p)
    → Steps p.state q.state
    → AllFollow ps (set ps i (some q))
AllFollow-set [] i p q e s = tt
AllFollow-set (none ∷ ps) zero p q e s = absurd (cc)
AllFollow-set (some x ∷ ps) zero p q e s =
    (subst (λ k. Steps k q.state) (same_state x p e) s, AllFollow-refl ps)
AllFollow-set (x ∷ ps) (suc i) p q e s = (Follows-refl x, AllFollow-set ps i p q e s)

Follows-pexpire_page : (at : ℕ) (p : Option PageHash) → Follows p (pexpire_page at p)
Follows-pexpire_page at none = tt
Follows-pexpire_page at (some p) = here

AllFollow-renew_pages :
    (at n reached : ℕ) (ps : List (Option PageHash)) → AllFollow ps (renew_pages at n reached ps)
unfolding renew_pages
AllFollow-renew_pages at zero reached ps = AllFollow-refl ps
AllFollow-renew_pages at (suc n) zero ps = AllFollow-refl ps
AllFollow-renew_pages at (suc n) (suc reached) [] = tt
AllFollow-renew_pages at (suc n) (suc reached) (p ∷ ps) =
    (Follows-pexpire_page at p, AllFollow-renew_pages at n reached ps)

-- The call accepts only sources from which the table allows the step.
abbrev pub Narrow : Call → Type 0
Narrow c = All (λ s. can_transition s c.to ≡ true) (sources_for c.to c.allowed_from)

Narrow-legal :
    (to : PageState) (sources : List PageState) (s : PageState)
    → All (λ s. can_transition s to ≡ true) sources
    → contains sources s ≡ true
    → can_transition s to ≡ true
Narrow-legal to [] s a e = ground arith
Narrow-legal to (x ∷ xs) s a e = ground (arith, state_eq_iff x s, Narrow-legal to xs s)

Ends-AllFollow :
    (ttl : ℕ) (c : Call) (r live : Redis) (x : Option (TransitionResult × Redis))
    → Narrow c
    → AllFollow r.pages live.pages
    → Ends ttl (sources_for c.to c.allowed_from) c live x
    → AllFollow r.pages (after r x).pages
Ends-AllFollow ttl c r live x n f raises = AllFollow-refl r.pages
Ends-AllFollow ttl c r live x n f (rejects seen) = f
Ends-AllFollow ttl c r live x n f (commits p found legal) = AllFollow-trans _ _ _ f (
    AllFollow-trans _ _ _
      (AllFollow-set live.pages c.index p (commit_page ttl c p) found
        (next here (Narrow-legal c.to (sources_for c.to c.allowed_from) p.state n legal)))
      (AllFollow-renew_pages _ _ _ _))

transition-AllFollow :
    (ttl : ℕ) (c : Call) (r : Redis)
    → Narrow c
    → AllFollow r.pages (after r (transition ttl c r)).pages
unfolding evict
transition-AllFollow ttl c r n =
    Ends-AllFollow ttl c r (evict c.clock r) _ n (AllFollow-live_page c.clock r.pages)
      (transition-Ends ttl c r)

-- In any sequence of calls that accept only sources which the table allows, each page that is still
-- there was there before, and its state was reached from the earlier one by steps of the table.
pub run-AllFollow :
    (ttl : ℕ) (cs : List Call) (r : Redis) → All Narrow cs → AllFollow r.pages (run ttl cs r).pages
unfolding run
run-AllFollow ttl [] r n = AllFollow-refl r.pages
run-AllFollow ttl (c ∷ cs) r n =
    AllFollow-trans _ _ _ (transition-AllFollow ttl c r n.0)
      (run-AllFollow ttl cs (after r (transition ttl c r)) n.1)

live_total :
    (clock : ℕ) (job : Option JobHash) → total_of job ≡ none → total_of (live_job clock job) ≡ none
live_total clock none e = refl
live_total clock (some j) e = ground arith

Ends-vanished :
    (ttl : ℕ) (sources : List PageState) (c : Call) (r live : Redis)
    (x : Option (TransitionResult × Redis))
    → total_of r.job ≡ none
    → total_of live.job ≡ none
    → Ends ttl sources c live x
    → (completions_of x ≡ 0) × (total_of (after r x).job ≡ none)
Ends-vanished ttl sources c r live x e f raises = (refl, e)
Ends-vanished ttl sources c r live x e f (rejects seen) = (refl, f)
Ends-vanished ttl sources c r live x e f (commits p found legal) = (ground arith, ground arith)

vanished_step :
    (ttl : ℕ) (c : Call) (r : Redis)
    → total_of r.job ≡ none
    → let x = transition ttl c r in (completions_of x ≡ 0) × (total_of (after r x).job ≡ none)
unfolding evict
vanished_step ttl c r e =
    Ends-vanished ttl _ c r (evict c.clock r) _ e (live_total c.clock r.job e)
      (transition-Ends ttl c r)

-- A job hash that is missing, or has lost its total, stays without one, and no call is ever
-- reported as the completion of the job.
pub vanished :
    (ttl : ℕ) (cs : List Call) (r : Redis)
    → total_of r.job ≡ none
    → (completions ttl cs r ≡ 0) × (total_of (run ttl cs r).job ≡ none)
unfolding run completions
vanished ttl [] r e = (refl, e)
vanished ttl (c ∷ cs) r e =
    let x = vanished_step ttl c r e in
    let rest = vanished ttl cs (after r (transition ttl c r)) x.1 in
    (omega (arith, x.0, rest.0), rest.1)

-- ===== src/Worker/Pipeline/Alone.antt =====
-- app/worker/pipeline.py: the store's accesses while nobody else acts on the job.
use mathlib.Core.Path.{subst}
use ocr_orchestrator.Common.{
  ℕ, ◌+◌, ◌≤◌, ◌≡◌, refl, sym, ap, inl, inr, true, false, Option, none, some, List, [], ◌∷◌, String,
  arith, Bool-cases, if◌then◌else◌,
}
use ocr_orchestrator.Queue.State.{
  PageState, pending, layout_running, layout_done, vlm_running, done, fallback_done, can_transition,
  predecessors, contains, is_terminal, is_running, reclaim_target,
}
use ocr_orchestrator.Queue.State.Table.{predecessors_iff}
use ocr_orchestrator.Queue.Store.{sources_for, TransitionResult}
use ocr_orchestrator.Queue.Store.Alone.{Holds, transition-Answers, live_holder}
use ocr_orchestrator.Queue.Store.Completion.{run}
use ocr_orchestrator.Worker.Pipeline.{
  Event, Env, World, enter, get_page, call_of, move, emit, settle, release_claim, roll_back, forced,
  force_terminal,
}

-- The set of sources of each state has a first member.
first_source :
    (to : PageState) → (x : PageState) × (xs : List PageState) × (predecessors to ≡ x ∷ xs)
unfolding predecessors
first_source pending = (_, _, refl)
first_source layout_running = (_, _, refl)
first_source layout_done = (_, _, refl)
first_source vlm_running = (_, _, refl)
first_source done = (_, _, refl)
first_source fallback_done = (_, _, refl)
first_source PageState.failed = (_, _, refl)

contains_self : (s : PageState) → contains (s ∷ []) s ≡ true
contains_self s = ground arith

reclaim_running : (s to : PageState) → reclaim_target s ≡ some to → is_running s ≡ true
reclaim_running s to e = ground arith

-- No other replica acts on the job, and the page's key lasts up to `h`: no clock passes it, and each
-- renewal reaches it.
pub record IsAlone (v : Env) (h : ℕ) : Type 0 where
  pub quiet : (n : ℕ) → v.others n ≡ []
  pub early : (n : ℕ) → v.clock n ≤ h
  pub late : (n : ℕ) → h ≤ v.clock n + v.ttl

module _ (v : Env) (h : ℕ) (q : IsAlone v h) where
  abbrev pub In : PageState → World → Type 0
  In s w = Holds h v.index s w.redis.pages

  pub enter-In : (s : PageState) (w : World) → In s w → In s (enter v w)
  unfolding run
  enter-In s w k = rw (q.quiet w.tick) k

  pub get_page-In :
      (s : PageState) (w : World) → In s w → ((get_page v w).0 ≡ some s) × In s (get_page v w).1
  get_page-In s w k =
      let e = enter-In s w k in
      (
        rw (e.found, live_holder (v.clock w.tick) h v.index s _ e (q.early w.tick))
            (ap some e.at_state),
        e,
      )

  pub move-In :
      (to s x : PageState) (xs : List PageState) (allowed : Option (List PageState))
      (fields : List (String × String)) (w : World)
      → sources_for to allowed ≡ x ∷ xs
      → In s w
      → let m = move v to allowed fields w in
        let legal = contains (sources_for to allowed) s in
        (m.0.ok ≡ legal) × In (if legal then to else s) m.1
  move-In to s x xs allowed fields w e k =
      let a =
        transition-Answers v.ttl h (call_of v w.tick to allowed fields) (enter v w).redis s x xs e
          (q.early w.tick) (q.late w.tick) (enter-In s w k) in
      rw a.ended (a.is_ok, a.kept)

  pub step-In :
      (to s : PageState) (fields : List (String × String)) (w : World)
      → In s w
      → let m = move v to none fields w in
        (m.0.ok ≡ can_transition s to) × In (if can_transition s to then to else s) m.1
  step-In to s fields w k =
      let (x, xs, e) = first_source to in
      rw (sym (predecessors_iff s to)) (move-In to s x xs none fields w e k)

  pub emit-In :
      (s : PageState) (e : Event) (m : TransitionResult × World)
      → In s m.1
      → In s (emit v e m.0 m.1)
  emit-In s e m k = elim (Bool-cases m.0.ok) [ inl told ↦ rw told k | inr quiet ↦ rw quiet k ]

  pub settle-In :
      (to s : PageState) (fields : List (String × String)) (w : World)
      → can_transition s to ≡ true
      → In s w
      → In to (settle v to fields w).1
  settle-In to s fields w legal k =
      let m = step-In to s fields w k in
      emit-In to _ (move v to none fields w)
        (subst (λ b. In (if b then to else s) (move v to none fields w).1) legal m.1)

  pub roll_back-In : (s to : PageState) (w : World) → In s w → In to (roll_back v s (some to) w)
  roll_back-In s to w k =
      let m = move-In to s s [] (some (s ∷ [])) [] w refl k in
      subst (λ b. In (if b then to else s) (move v to (some (s ∷ [])) [] w).1) (contains_self s) m.1

  pub release-In :
      (s to : PageState) (w : World)
      → reclaim_target s ≡ some to
      → In s w
      → In to (release_claim v w)
  release-In s to w e k =
      let g = get_page-In s w k in
      rw (g.0, reclaim_running s to e, e) (roll_back-In s to (get_page v w).1 g.1)

  forced_to :
      (to s : PageState) (fields : List (String × String)) (w : World)
      → can_transition s to ≡ true
      → is_terminal to ≡ true
      → In s w
      → let m = settle v to fields w in
        (t : PageState) × ((if m.0.ok then some to else m.0.observed) ≡ some t)
        × (is_terminal t ≡ true)
        × In t m.1
  forced_to to s fields w legal ended k =
      (to, rw ((step-In to s fields w k).0, legal) refl, ended, settle-In to s fields w legal k)

  forced-In :
      (reason : String) (s : PageState) (w : World)
      → is_terminal s ≡ false
      → In s w
      → let m = forced v reason s w in
        (t : PageState) × (m.0 ≡ some t) × (is_terminal t ≡ true) × In t m.1
  forced-In reason pending w live k = forced_to PageState.failed pending _ w refl refl k
  forced-In reason layout_running w live k =
      forced_to PageState.failed layout_running _ w refl refl k
  forced-In reason layout_done w live k = forced_to fallback_done layout_done _ w refl refl k
  forced-In reason vlm_running w live k = forced_to fallback_done vlm_running _ w refl refl k
  forced-In reason done w live k = ground arith
  forced-In reason fallback_done w live k = ground arith
  forced-In reason PageState.failed w live k = ground arith

  -- If nobody else acts on the job and the key of the page lasts, `force_terminal` returns a terminal
  -- state, and leaves the page in it.
  pub force_terminal-In :
      (reason : String) (s : PageState) (w : World)
      → Holds h v.index s w.redis.pages
      → (t : PageState) × ((force_terminal v reason w).0 ≡ some t)
        × (is_terminal t ≡ true)
        × Holds h v.index t (force_terminal v reason w).1.redis.pages
  unfolding force_terminal
  force_terminal-In reason s w k =
      let g = get_page-In s w k in
      rw g.0 (elim (Bool-cases (is_terminal s)) [
        | inl ended ↦ rw ended (s, refl, ended, g.1)
        | inr live ↦ rw live (forced-In reason s _ live g.1)
      ])

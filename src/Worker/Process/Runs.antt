-- ===== src/Worker/Process/Runs.antt =====
-- What one page's processing does to the store of its job.
use ocr_orchestrator.Common.{
  Bool-cases, inl, inr, arith, ℕ, ◌≡◌, refl, sym, ap, ◌∙◌, Bool, true, false, Option, none, some,
  List, [], ◌∷◌, ◌++◌, String, All, if◌then◌else◌, arith,
}
use ocr_orchestrator.Queue.State.{
  PageState, pending, layout_running, layout_done, vlm_running, done, fallback_done, can_transition,
  predecessors, reclaim_target, is_terminal, is_running,
}
use ocr_orchestrator.Queue.Hashes.{Redis}
use ocr_orchestrator.Queue.Store.{Call, TransitionResult, transition}
use ocr_orchestrator.Queue.Store.Healthy.{after}
use ocr_orchestrator.Queue.Store.Completion.{run}
use ocr_orchestrator.Queue.Store.Safety.{Narrow}
use ocr_orchestrator.Worker.Pipeline.{
  Outcome, completed, resumed, page_partial, Answer, replied, failed_with, interrupted, Event, Env,
  World, enter, get_page, call_of, applied, move, emit, settle, roll_back, release, release_claim,
}
use ocr_orchestrator.Worker.Process.{
  unreached, put_back, vlm_failed, after_vlm, vlm_stage, layout_failed, after_layout, layout_stage,
  stages, reread, take_over, dispatch, process_page,
}

run-append :
    (ttl : ℕ) (xs ys : List Call) (r : Redis) → run ttl (xs ++ ys) r ≡ run ttl ys (run ttl xs r)
unfolding run
run-append ttl [] ys r = refl
run-append ttl (c ∷ xs) ys r = run-append ttl xs ys (after r (transition ttl c r))

append-All {ℓ κ} :
    {A : Type ℓ} (P : A → Type κ) (xs ys : List A) → All P xs → All P ys → All P (xs ++ ys)
append-All P [] ys h k = k
append-All P (x ∷ xs) ys h k = (h.0, append-All P xs ys h.1 k)

predecessors-Narrow : (to : PageState) → All (λ s. can_transition s to ≡ true) (predecessors to)
unfolding predecessors
predecessors-Narrow pending = (refl, tt)
predecessors-Narrow layout_running = (refl, tt)
predecessors-Narrow layout_done = (refl, (refl, tt))
predecessors-Narrow vlm_running = (refl, tt)
predecessors-Narrow done = (refl, tt)
predecessors-Narrow fallback_done = (refl, (refl, tt))
predecessors-Narrow PageState.failed = (refl, (refl, (refl, tt)))

reclaim_legal : (s to : PageState) → reclaim_target s ≡ some to → can_transition s to ≡ true
reclaim_legal s to e = ground arith

module _ (v : Env) where
  -- The store got from `w` to `x` by a sequence of calls that accept only what the table allows.
  pub record Ran (w x : World) : Type 0 where
    pub calls : List Call
    pub narrow : All Narrow calls
    pub reached : x.redis ≡ run v.ttl calls w.redis

  stay-Ran : (w : World) → Ran w w
  unfolding run
  stay-Ran w = record { calls = []; narrow = tt; reached = refl }

  Ran-trans : (w x y : World) → Ran w x → Ran x y → Ran w y
  Ran-trans w x y f g = record {
    calls = f.calls ++ g.calls;
    narrow = append-All Narrow f.calls g.calls f.narrow g.narrow;
    reached =
        g.reached
        ∙ ap (run v.ttl g.calls) f.reached
        ∙ sym (run-append v.ttl f.calls g.calls w.redis);
  }

  applied-redis :
      (to : PageState) (e : World) (x : Option (TransitionResult × Redis))
      → (applied to e x).1.redis ≡ after e.redis x
  applied-redis to e none = refl
  applied-redis to e (some (t, r)) = refl

  emit-redis : (e : Event) (t : TransitionResult) (w : World) → (emit v e t w).redis ≡ w.redis
  emit-redis e t w = ground arith

module _ (v : Env) (tame : (n : ℕ) → All Narrow (v.others n)) where
  enter-Ran : (w : World) → Ran v w (enter v w)
  enter-Ran w = record { calls = v.others w.tick; narrow = tame w.tick; reached = refl }

  move-Ran :
      (to : PageState) (allowed : Option (List PageState)) (fields : List (String × String))
      (w : World)
      → Narrow (call_of v w.tick to allowed fields)
      → Ran v w (move v to allowed fields w).1
  unfolding run
  move-Ran to allowed fields w n =
      let c = call_of v w.tick to allowed fields in
      Ran-trans v w (enter v w) (move v to allowed fields w).1 (enter-Ran w) (record {
        calls = c ∷ [];
        narrow = (n, tt);
        reached = applied-redis v to (enter v w) (transition v.ttl c (enter v w).redis);
      })

  step-Ran :
      (to : PageState) (fields : List (String × String)) (w : World)
      → Ran v w (move v to none fields w).1
  step-Ran to fields w = move-Ran to none fields w (predecessors-Narrow to)

  emit-Ran : (e : Event) (t : TransitionResult) (w x : World) → Ran v w x → Ran v w (emit v e t x)
  emit-Ran e t w x f = record {
    calls = f.calls;
    narrow = f.narrow;
    reached = emit-redis v e t x ∙ f.reached;
  }

  settle-Ran :
      (to : PageState) (fields : List (String × String)) (w : World)
      → Ran v w (settle v to fields w).1
  settle-Ran to fields w =
      let m = move v to none fields w in emit-Ran _ m.0 w m.1 (step-Ran to fields w)

  if-Ran :
      {A : Type 0} (w : World) (b : Bool) (x y : A × World)
      → Ran v w x.1
      → Ran v w y.1
      → Ran v w (if b then x else y).1
  if-Ran w true x y h k = h
  if-Ran w false x y h k = k

  roll_back-Ran :
      (s : PageState) (w : World) (target : Option PageState)
      → reclaim_target s ≡ target
      → Ran v w (roll_back v s target w)
  roll_back-Ran s w none e = stay-Ran v w
  roll_back-Ran s w (some to) e = move-Ran to (some (s ∷ [])) [] w (reclaim_legal s to e, tt)

  release-Ran : (w : World) (s : Option PageState) → Ran v w (release v s w)
  release-Ran w none = stay-Ran v w
  release-Ran w (some s) = elim (Bool-cases (is_running s)) [
    | inl held ↦ rw held (roll_back-Ran s w (reclaim_target s) refl)
    | inr free ↦ rw free (stay-Ran v w)
  ]

  -- A claim that is handed back is rolled back by calls that the table allows.
  release_claim-Ran : (w : World) → Ran v w (release_claim v w)
  release_claim-Ran w =
      let g = get_page v w in
      Ran-trans v w g.1 (release_claim v w) (enter-Ran w) (release-Ran g.1 g.0)

  put_back-Ran : (cause : Answer) (ms : ℕ) (w : World) → Ran v w (put_back v cause ms w).1
  put_back-Ran cause ms w =
      let x = release_claim v w in
      if-Ran w v.final_attempt _ _
        (Ran-trans v w x _ (release_claim-Ran w) (settle-Ran PageState.failed _ x))
        (release_claim-Ran w)

  vlm_failed-Ran : (w : World) (ms : Option ℕ) → Ran v w (vlm_failed v ms w).1
  vlm_failed-Ran w none = settle-Ran fallback_done _ w
  vlm_failed-Ran w (some ms) =
      if-Ran w v.final_attempt _ _ (settle-Ran fallback_done _ w) (put_back-Ran v.vlm ms w)

  after_vlm-Ran : (o : Outcome) (w : World) (a : Answer) → Ran v w (after_vlm v o a w).1
  after_vlm-Ran o w (replied json confidence) = settle-Ran done _ w
  after_vlm-Ran o w (failed_with e) = vlm_failed-Ran w (unreached (failed_with e))
  after_vlm-Ran o w interrupted = settle-Ran fallback_done _ w

  vlm_stage-Ran : (o : Outcome) (w : World) → Ran v w (vlm_stage v o w).1
  vlm_stage-Ran o w =
      let claim = move v vlm_running none [] w in
      let claimed = step-Ran vlm_running [] w in
      if-Ran w claim.0.ok _ _ (Ran-trans v w claim.1 _ claimed (after_vlm-Ran o claim.1 v.vlm))
        claimed

  layout_failed-Ran : (w : World) (ms : Option ℕ) → Ran v w (layout_failed v ms w).1
  layout_failed-Ran w none = settle-Ran PageState.failed _ w
  layout_failed-Ran w (some ms) = put_back-Ran v.layout ms w

  after_layout-Ran : (w : World) (a : Answer) → Ran v w (after_layout v a w).1
  after_layout-Ran w (replied json confidence) =
      let committed = move v layout_done none (("layout", json) ∷ []) w in
      let told = emit v (page_partial v.index layout_done) committed.0 committed.1 in
      let told_ran = emit-Ran _ committed.0 w committed.1 (step-Ran layout_done _ w) in
      if-Ran w v.handoff _ _ told_ran (Ran-trans v w told _ told_ran (vlm_stage-Ran completed told))
  after_layout-Ran w (failed_with e) = layout_failed-Ran w (unreached (failed_with e))
  after_layout-Ran w interrupted = stay-Ran v w

  layout_stage-Ran : (w : World) → Ran v w (layout_stage v w).1
  layout_stage-Ran w =
      let claim = move v layout_running none [] w in
      let claimed = step-Ran layout_running [] w in
      if-Ran w claim.0.ok _ _ (Ran-trans v w claim.1 _ claimed (after_layout-Ran claim.1 v.layout))
        claimed

  stages-Ran : (w : World) (s : PageState) → Ran v w (stages v s w).1
  stages-Ran w pending = layout_stage-Ran w
  stages-Ran w layout_running = vlm_stage-Ran completed w
  stages-Ran w layout_done = vlm_stage-Ran resumed w
  stages-Ran w vlm_running = vlm_stage-Ran completed w
  stages-Ran w done = vlm_stage-Ran completed w
  stages-Ran w fallback_done = vlm_stage-Ran completed w
  stages-Ran w PageState.failed = vlm_stage-Ran completed w

  reread-Ran : (w : World) (s : Option PageState) → Ran v w (reread v s w).1
  reread-Ran w none = stay-Ran v w
  reread-Ran w (some s) =
      if-Ran w (is_terminal s) _ _ (stay-Ran v w)
        (if-Ran w (is_running s) _ _ (stay-Ran v w) (stages-Ran w s))

  take_over-Ran : (w : World) → Ran v w (take_over v w).1
  take_over-Ran w =
      let x = release_claim v w in
      let g = get_page v x in
      Ran-trans v w x _ (release_claim-Ran w)
        (Ran-trans v x g.1 _ (enter-Ran x) (reread-Ran g.1 g.0))

  dispatch-Ran : (w : World) (s : Option PageState) → Ran v w (dispatch v s w).1
  dispatch-Ran w none = stay-Ran v w
  dispatch-Ran w (some s) = if-Ran w (is_terminal s) _ _ (stay-Ran v w) (
      if-Ran w (is_running s) _ _ (if-Ran w v.reclaim _ _ (take_over-Ran w) (stay-Ran v w))
        (stages-Ran w s))

  -- Whatever the two model calls answer and whatever the other replicas do between the accesses, as
  -- long as their calls accept only what the table allows: all that happens to the store while a page
  -- is processed is a sequence of calls of the transition script of that kind.
  pub process_page-Ran : (w : World) → Ran v w (process_page v w).1
  unfolding process_page
  process_page-Ran w =
      let g = get_page v w in Ran-trans v w g.1 _ (enter-Ran w) (dispatch-Ran g.1 g.0)

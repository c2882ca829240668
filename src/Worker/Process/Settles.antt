-- ===== src/Worker/Process/Settles.antt =====
-- Where a page is left when nobody else acts on its job and its key lasts.
use mathlib.Core.Path.{subst}
use ocr_orchestrator.Common.{
  ◌+◌, ◌≤◌, ℕ, ◌≡◌, refl, sym, Bool, true, false, ◌||◌, Option, none, some, [], ◌∷◌, if◌then◌else◌,
}
use ocr_orchestrator.Queue.State.{
  PageState, pending, layout_running, layout_done, vlm_running, done, fallback_done, is_terminal,
  is_running, state_eq, reclaim_target,
}
use ocr_orchestrator.Queue.Store.Alone.{Holds}
use ocr_orchestrator.Worker.Pipeline.{
  Outcome, completed, resumed, already_terminal, owned_by_other, degraded, handed_off, saturated,
  page_failed, PageResult, Answer, replied, failed_with, interrupted, Env, World, get_page, move,
  settle, degrade, release_claim, result, error_fields,
}
use ocr_orchestrator.Worker.Process.{
  unreached, put_back, vlm_failed, after_vlm, vlm_stage, after_layout, layout_stage, layout_failed,
  reread, take_over, dispatch, process_page,
}
use ocr_orchestrator.Worker.Pipeline.Alone.{IsAlone}
use ocr_orchestrator.Worker.Pipeline.Told.{
  finals, ended, Stands, get_page-Stands, step-Stands, settle-Stands, emit-Stands, release-Stands,
}

-- The state that a page is in when the processing ends so; `none` is an interruption.
abbrev fits_outcome : Outcome → PageState → Bool
fits_outcome completed t = state_eq t done
fits_outcome resumed t = state_eq t done
fits_outcome already_terminal t = is_terminal t
fits_outcome owned_by_other t = is_running t
fits_outcome degraded t = state_eq t fallback_done
fits_outcome handed_off t = state_eq t layout_done
fits_outcome saturated t = state_eq t pending || state_eq t layout_done
fits_outcome page_failed t = state_eq t PageState.failed

abbrev pub fits : Option PageResult → PageState → Bool
fits none t = state_eq t layout_running
fits (some r) t = fits_outcome r.outcome t

module _ (v : Env) (h : ℕ) (q : IsAlone v h) (heard : (n : ℕ) → 1 ≤ v.heard n) (owed base : ℕ) where
  abbrev Settled : Option PageResult × World → Type 0
  Settled r = (t : PageState) × Stands v h owed base t r.1 × (fits r.0 t ≡ true)

  if-Settled :
      (b : Bool) (x y : Option PageResult × World)
      → (b ≡ true → Settled x)
      → (b ≡ false → Settled y)
      → Settled (if b then x else y)
  if-Settled true x y f g = f refl
  if-Settled false x y f g = g refl

  put_back-Settled :
      (cause : Answer) (ms : ℕ) (w : World)
      → Stands v h owed base layout_running w
      → Settled (put_back v cause ms w)
  put_back-Settled cause ms w k =
      let x = release-Stands v h q heard owed base layout_running pending w refl k in
      if-Settled v.final_attempt _ _
        (λ final. (
          PageState.failed,
          settle-Stands v h q heard owed base PageState.failed pending _ (release_claim v w) refl
              refl refl x,
          refl,
        ))
        (λ more. (pending, x, refl))

  -- A page that holds out for its VLM result goes back to its layout.
  held_out-Settled :
      (ms : ℕ) (w : World)
      → v.final_attempt ≡ false
      → Stands v h owed base vlm_running w
      → Settled (put_back v v.vlm ms w)
  held_out-Settled ms w more k =
      subst
        (λ b. Settled (
          if b
          then result page_failed
              (settle v PageState.failed (error_fields (v.unavailable v.vlm)) (release_claim v w)).1
          else (some (record { outcome = saturated; retry_after_ms = ms }), release_claim v w)))
        (sym more)
        (layout_done, release-Stands v h q heard owed base vlm_running layout_done w refl k, refl)

  degrade-Settled : (w : World) → Stands v h owed base vlm_running w → Settled (degrade v w)
  degrade-Settled w k = (
    fallback_done,
    settle-Stands v h q heard owed base fallback_done vlm_running _ w refl refl refl k,
    refl,
  )

  vlm_failed-Settled :
      (w : World) (ms : Option ℕ) → Stands v h owed base vlm_running w → Settled (vlm_failed v ms w)
  vlm_failed-Settled w none k = degrade-Settled w k
  vlm_failed-Settled w (some ms) k =
      if-Settled v.final_attempt _ _ (λ final. degrade-Settled w k)
        (λ more. held_out-Settled ms w more k)

  after_vlm-Settled :
      (o : Outcome) (w : World) (a : Answer)
      → fits_outcome o done ≡ true
      → Stands v h owed base vlm_running w
      → Settled (after_vlm v o a w)
  after_vlm-Settled o w (replied json confidence) e k =
      (done, settle-Stands v h q heard owed base done vlm_running _ w refl refl refl k, e)
  after_vlm-Settled o w (failed_with err) e k = vlm_failed-Settled w (unreached (failed_with err)) k
  after_vlm-Settled o w interrupted e k = degrade-Settled w k

  vlm_stage-Settled :
      (o : Outcome) (w : World)
      → fits_outcome o done ≡ true
      → Stands v h owed base layout_done w
      → Settled (vlm_stage v o w)
  vlm_stage-Settled o w e k =
      let claim = step-Stands v h q heard owed base vlm_running layout_done [] w refl refl k in
      rw claim.0 (after_vlm-Settled o _ v.vlm e claim.1)

  layout_failed-Settled :
      (w : World) (ms : Option ℕ)
      → Stands v h owed base layout_running w
      → Settled (layout_failed v ms w)
  layout_failed-Settled w none k = (
    PageState.failed,
    settle-Stands v h q heard owed base PageState.failed layout_running _ w refl refl refl k,
    refl,
  )
  layout_failed-Settled w (some ms) k = put_back-Settled v.layout ms w k

  after_layout-Settled :
      (w : World) (a : Answer)
      → Stands v h owed base layout_running w
      → Settled (after_layout v a w)
  after_layout-Settled w (replied json confidence) k =
      let committed =
        step-Stands v h q heard owed base layout_done layout_running (("layout", json) ∷ []) w refl
          refl k in
      let told =
        emit-Stands v h q heard owed base layout_done _
          (move v layout_done none (("layout", json) ∷ []) w) refl committed.1 in
      if-Settled v.handoff _ _ (λ off. (layout_done, told, refl))
        (λ on. vlm_stage-Settled completed _ refl told)
  after_layout-Settled w (failed_with e) k = layout_failed-Settled w (unreached (failed_with e)) k
  after_layout-Settled w interrupted k = (layout_running, k, refl)

  layout_stage-Settled : (w : World) → Stands v h owed base pending w → Settled (layout_stage v w)
  layout_stage-Settled w k =
      let claim = step-Stands v h q heard owed base layout_running pending [] w refl refl k in
      rw claim.0 (after_layout-Settled _ v.layout claim.1)

  -- A claim of a worker that is gone is rolled back and taken over.
  take_over-Settled :
      (s to : PageState) (w : World)
      → reclaim_target s ≡ some to
      → ((x : World) → Stands v h owed base to x → Settled (reread v (some to) x))
      → Stands v h owed base s w
      → Settled (take_over v w)
  take_over-Settled s to w e next k =
      let x = release-Stands v h q heard owed base s to w e k in
      let g = get_page-Stands v h q heard owed base to (release_claim v w) x in rw g.0 (next _ g.1)

  dispatch-Settled :
      (w : World) (s : PageState) → Stands v h owed base s w → Settled (dispatch v (some s) w)
  dispatch-Settled w pending k = layout_stage-Settled w k
  dispatch-Settled w layout_running k =
      if-Settled v.reclaim _ _
        (λ mine. take_over-Settled layout_running pending w refl layout_stage-Settled k)
        (λ held. (layout_running, k, refl))
  dispatch-Settled w layout_done k = vlm_stage-Settled resumed w refl k
  dispatch-Settled w vlm_running k =
      if-Settled v.reclaim _ _
        (λ mine.
          take_over-Settled vlm_running layout_done w refl (λ x. vlm_stage-Settled resumed x refl)
            k)
        (λ held. (vlm_running, k, refl))
  dispatch-Settled w done k = (done, k, refl)
  dispatch-Settled w fallback_done k = (fallback_done, k, refl)
  dispatch-Settled w PageState.failed k = (PageState.failed, k, refl)

-- If nobody else acts on the job, the key of the page lasts and publications get through: whatever
-- the model calls answer, the page is left in the state that the outcome names, and a page.final is
-- published once if this call made the page terminal, and else not. It is DONE after completed and
-- resumed, FALLBACK_DONE after degraded, FAILED after failed, terminal after already_terminal,
-- PENDING or LAYOUT_DONE and so claimable again after saturated, LAYOUT_DONE after a handoff, and
-- claimed after owned_by_other; an interruption leaves it in LAYOUT_RUNNING.
pub process_page-Settled :
    (v : Env) (h : ℕ) (s : PageState) (w : World)
    → IsAlone v h
    → ((n : ℕ) → 1 ≤ v.heard n)
    → Holds h v.index s w.redis.pages
    → let r = process_page v w in
      (t : PageState) × Holds h v.index t r.1.redis.pages
      × (fits r.0 t ≡ true)
      × (finals r.1.events + ended s ≡ finals w.events + ended t)
unfolding process_page
process_page-Settled v h s w q heard k =
    let owed = ended s in
    let base = finals w.events in
    let g = get_page-Stands v h q heard owed base s w (record { holds = k; counted = refl }) in
    let (t, stands, fit) = dispatch-Settled v h q heard owed base (get_page v w).1 s g.1 in
    rw g.0 (t, stands.holds, fit, stands.counted)

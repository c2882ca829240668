-- ===== src/Worker/Loop/Accepted.antt =====
-- Which outcomes `process_page` does not have.
use ocr_orchestrator.Common.{
  ℕ, ◌≡◌, refl, sym, Bool, true, false, not, Option, none, some, [], ◌∷◌, if◌then◌else◌,
}
use ocr_orchestrator.Queue.State.{
  PageState, pending, layout_running, layout_done, vlm_running, done, fallback_done, is_running,
  reclaim_target,
}
use ocr_orchestrator.Worker.Pipeline.{
  Outcome, completed, resumed, owned_by_other, saturated, PageResult, Answer, replied, failed_with,
  interrupted, Env, World, move, page_partial, release_claim,
}
use ocr_orchestrator.Worker.Process.{
  unreached, put_back, vlm_failed, after_vlm, vlm_stage, after_layout, layout_stage, layout_failed,
  reread, take_over, dispatch, process_page,
}
use ocr_orchestrator.Worker.Pipeline.Alone.{IsAlone, In, get_page-In, step-In, release-In, emit-In}

-- Neither another's page, nor one that holds out on its final attempt.
abbrev pub accepts_outcome : Bool → Outcome → Bool
accepts_outcome final owned_by_other = false
accepts_outcome final saturated = not final
accepts_outcome final o = true

abbrev pub accepts : Bool → Option PageResult → Bool
accepts final none = true
accepts final (some r) = accepts_outcome final r.outcome

not_final : (b : Bool) → b ≡ false → not b ≡ true
not_final true e = sym e
not_final false e = refl

module _ (v : Env) where
  abbrev pub IsAccepted : Option PageResult × World → Type 0
  IsAccepted r = accepts v.final_attempt r.0 ≡ true

  if-IsAccepted :
      (b : Bool) (x y : Option PageResult × World)
      → (b ≡ true → IsAccepted x)
      → (b ≡ false → IsAccepted y)
      → IsAccepted (if b then x else y)
  if-IsAccepted true x y f g = f refl
  if-IsAccepted false x y f g = g refl

  put_back-IsAccepted : (a : Answer) (ms : ℕ) (w : World) → IsAccepted (put_back v a ms w)
  put_back-IsAccepted a ms w =
      if-IsAccepted v.final_attempt _ _ (λ e. refl) (not_final v.final_attempt)

  vlm_failed-IsAccepted : (ms : Option ℕ) (w : World) → IsAccepted (vlm_failed v ms w)
  vlm_failed-IsAccepted none w = refl
  vlm_failed-IsAccepted (some ms) w =
      if-IsAccepted v.final_attempt _ _ (λ e. refl) (λ e. put_back-IsAccepted v.vlm ms w)

  layout_failed-IsAccepted : (ms : Option ℕ) (w : World) → IsAccepted (layout_failed v ms w)
  layout_failed-IsAccepted none w = refl
  layout_failed-IsAccepted (some ms) w = put_back-IsAccepted v.layout ms w

  after_vlm-IsAccepted :
      (o : Outcome) (a : Answer) (w : World)
      → accepts_outcome v.final_attempt o ≡ true
      → IsAccepted (after_vlm v o a w)
  after_vlm-IsAccepted o (replied json confidence) w e = e
  after_vlm-IsAccepted o (failed_with x) w e = vlm_failed-IsAccepted (unreached (failed_with x)) w
  after_vlm-IsAccepted o interrupted w e = refl

module _ (v : Env) (h : ℕ) (q : IsAlone v h) where
  vlm_stage-IsAccepted :
      (o : Outcome) (w : World)
      → accepts_outcome v.final_attempt o ≡ true
      → In v h q layout_done w
      → IsAccepted v (vlm_stage v o w)
  vlm_stage-IsAccepted o w e k =
      let claim = step-In v h q vlm_running layout_done [] w k in
      rw claim.0 (after_vlm-IsAccepted v o v.vlm _ e)

  after_layout-IsAccepted :
      (a : Answer) (w : World) → In v h q layout_running w → IsAccepted v (after_layout v a w)
  after_layout-IsAccepted (replied json confidence) w k =
      let fields = ("layout", json) ∷ [] in
      let committed = step-In v h q layout_done layout_running fields w k in
      if-IsAccepted v v.handoff _ _ (λ e. refl)
        (λ e. vlm_stage-IsAccepted completed _ refl (
          emit-In v h q layout_done (page_partial v.index layout_done)
            (move v layout_done none fields w) committed.1))
  after_layout-IsAccepted (failed_with x) w k =
      layout_failed-IsAccepted v (unreached (failed_with x)) w
  after_layout-IsAccepted interrupted w k = refl

  layout_stage-IsAccepted : (w : World) → In v h q pending w → IsAccepted v (layout_stage v w)
  layout_stage-IsAccepted w k =
      let claim = step-In v h q layout_running pending [] w k in
      rw claim.0 (after_layout-IsAccepted v.layout _ claim.1)

  take_over-IsAccepted :
      (s to : PageState) (w : World)
      → reclaim_target s ≡ some to
      → ((x : World) → In v h q to x → IsAccepted v (reread v (some to) x))
      → In v h q s w
      → IsAccepted v (take_over v w)
  take_over-IsAccepted s to w e next k =
      let g = get_page-In v h q to (release_claim v w) (release-In v h q s to w e k) in
      rw g.0 (next _ g.1)

  dispatch-IsAccepted :
      (s : PageState) (w : World)
      → (is_running s ≡ true → v.reclaim ≡ true)
      → In v h q s w
      → IsAccepted v (dispatch v (some s) w)
  dispatch-IsAccepted pending w r k = layout_stage-IsAccepted w k
  dispatch-IsAccepted layout_running w r k =
      rw (r refl) (take_over-IsAccepted layout_running pending w refl layout_stage-IsAccepted k)
  dispatch-IsAccepted layout_done w r k = vlm_stage-IsAccepted resumed w refl k
  dispatch-IsAccepted vlm_running w r k = rw (r refl) (
      take_over-IsAccepted vlm_running layout_done w refl (λ x. vlm_stage-IsAccepted resumed x refl)
        k)
  dispatch-IsAccepted done w r k = refl
  dispatch-IsAccepted fallback_done w r k = refl
  dispatch-IsAccepted PageState.failed w r k = refl

  -- Alone, a page that nobody claimed, or that this worker claimed before, is not left to another one,
  -- and it does not hold out on its final attempt.
  pub process_page-IsAccepted :
      (s : PageState) (w : World)
      → (is_running s ≡ true → v.reclaim ≡ true)
      → In v h q s w
      → IsAccepted v (process_page v w)
  unfolding process_page
  process_page-IsAccepted s w r k =
      let g = get_page-In v h q s w k in rw g.0 (dispatch-IsAccepted s _ r g.1)

-- ===== src/Worker/Loop/Kept.antt =====
-- No page is stranded by the worker that handles it.
use ocr_orchestrator.Common.{
  ℕ, ◌≤◌, ◌≡◌, ◌⊎◌, inl, inr, refl, Bool, true, false, Option, none, some, String, Bool-cases,
  if◌then◌else◌, arith,
}
use ocr_orchestrator.Queue.State.{
  PageState, pending, layout_running, layout_done, vlm_running, done, fallback_done, is_terminal,
  is_running,
}
use ocr_orchestrator.Queue.Store.Alone.{Holds}
use ocr_orchestrator.Queue.Tasks.{PageTask, main, retry_fields}
use ocr_orchestrator.Queue.Broker.{Broker, Documented, waiting}
use ocr_orchestrator.Queue.Streams.{Queue, requeue}
use ocr_orchestrator.Queue.Streams.Requeue.{status, Carried, new_id, new_entry}
use ocr_orchestrator.Worker.Limits.{Settings, final_attempt}
use ocr_orchestrator.Worker.Pipeline.{
  Outcome, completed, resumed, already_terminal, owned_by_other, degraded, handed_off, saturated,
  page_failed, PageResult, Env, World, release_claim,
}
use ocr_orchestrator.Worker.Pipeline.Alone.{
  IsAlone, In, enter-In, get_page-In, release-In, force_terminal-In,
}
use ocr_orchestrator.Worker.Process.{process_page}
use ocr_orchestrator.Worker.Process.Settles.{fits, process_page-Settled}
use ocr_orchestrator.Worker.Loop.{
  Site, ending, page_env, conclude, recover_crash, after_page, handle_page, maybe_delete_document,
}
use ocr_orchestrator.Worker.Loop.Accepted.{accepts, accepts_outcome, process_page-IsAccepted}

module _ (v : Env) (h : ℕ) (q : IsAlone v h) where
  -- A page that is released is at a checkpoint or terminal.
  pub released-In :
      (s : PageState) (w : World)
      → In v h q s w
      → (t : PageState) × In v h q t (release_claim v w) × (is_running t ≡ false)
  released-In pending w k = let g = get_page-In v h q pending w k in rw g.0 (pending, g.1, refl)
  released-In layout_running w k = (pending, release-In v h q layout_running pending w refl k, refl)
  released-In layout_done w k =
      let g = get_page-In v h q layout_done w k in rw g.0 (layout_done, g.1, refl)
  released-In vlm_running w k =
      (layout_done, release-In v h q vlm_running layout_done w refl k, refl)
  released-In done w k = let g = get_page-In v h q done w k in rw g.0 (done, g.1, refl)
  released-In fallback_done w k =
      let g = get_page-In v h q fallback_done w k in rw g.0 (fallback_done, g.1, refl)
  released-In PageState.failed w k =
      let g = get_page-In v h q PageState.failed w k in rw g.0 (PageState.failed, g.1, refl)

module _ {L : Type 0} (b : Broker L) (docs : Documented b) (now : ℕ) (t : PageTask) where
  abbrev pub OwnEntry : Queue L → Type 0
  OwnEntry q = Carried (status b q t.stream t.entry_id) t.job_id t.page_index

  -- The page was put back: a new entry waits for a worker.
  abbrev pub IsBack : Queue L → Type 0
  IsBack q = (counted : Bool) × (i : ℕ) × (status b q main i ≡ waiting (retry_fields counted now t))

  requeue-IsBack : (counted : Bool) (q : Queue L) → OwnEntry q → IsBack (requeue b counted now t q)
  requeue-IsBack counted q own = (
    counted,
    new_id b docs main (retry_fields counted now t) q,
    new_entry b docs counted now t 2 q t.job_id t.page_index own,
  )

  module _ (c : Settings) (v : Env) (h : ℕ) (alone : IsAlone (page_env b c now t v) h) where
    -- A page is terminal, or waits at a checkpoint in a new entry, or its entry is still pending.
    pub record Lasts (x : Site L) : Type 0 where
      pub state : PageState
      pub holds : Holds h t.page_index state x.world.redis.pages
      pub reachable :
          (is_terminal state ≡ true)
          ⊎ ((is_running state ≡ false) × IsBack x.queue)
          ⊎ OwnEntry x.queue

    abbrev env : Env
    env = page_env b c now t v

    deleted-Lasts : (x : Site L) → Lasts x → Lasts (maybe_delete_document env x)
    deleted-Lasts x k = record {
      state = k.state;
      holds = enter-In env h alone k.state x.world k.holds;
      reachable = k.reachable;
    }

    if-Lasts : (b : Bool) (x y : Site L) → Lasts x → Lasts y → Lasts (if b then x else y)
    if-Lasts true x y k l = k
    if-Lasts false x y k l = l

    ended_kept :
        (s : PageState) (x : Site L)
        → Holds h t.page_index s x.world.redis.pages
        → is_terminal s ≡ true
        → Lasts x
    ended_kept s x k e = record { state = s; holds = k; reachable = inl e }

    conclude-Lasts :
        (o : Outcome) (r : PageResult) (s : PageState) (x : Site L)
        → OwnEntry x.queue
        → Holds h t.page_index s x.world.redis.pages
        → fits (some (record r { outcome = o })) s ≡ true
        → accepts_outcome (final_attempt c now t) o ≡ true
        → Lasts (conclude b c now t v o r x)
    conclude-Lasts completed r s x own k fit ok = deleted-Lasts _ (ended_kept s _ k (ground arith))
    conclude-Lasts resumed r s x own k fit ok = deleted-Lasts _ (ended_kept s _ k (ground arith))
    conclude-Lasts already_terminal r s x own k fit ok = deleted-Lasts _ (ended_kept s _ k fit)
    conclude-Lasts owned_by_other r s x own k fit ok = absurd (ground arith)
    conclude-Lasts degraded r s x own k fit ok = deleted-Lasts _ (ended_kept s _ k (ground arith))
    conclude-Lasts page_failed r s x own k fit ok =
        deleted-Lasts _ (ended_kept s _ k (ground arith))
    conclude-Lasts handed_off r s x own k fit ok = record {
      state = s;
      holds = k;
      reachable = inr (inl (ground arith, requeue-IsBack false x.queue own));
    }
    conclude-Lasts saturated r s x own k fit ok = elim (Bool-cases (final_attempt c now t)) [
      | inl final ↦ absurd (ground arith)
      | inr more ↦ rw more (record {
        state = s;
        holds = k;
        reachable = inr (inl (ground arith, requeue-IsBack true x.queue own));
      })
    ]

    ending-Lasts :
        (reason : String) (r : Option PageResult) (s : PageState) (x : Site L)
        → OwnEntry x.queue
        → Holds h t.page_index s x.world.redis.pages
        → fits r s ≡ true
        → accepts (final_attempt c now t) r ≡ true
        → Lasts (after_page b c now t v reason (ending r) x)
    ending-Lasts reason none s x own k fit ok = record {
      state = s;
      holds = k;
      reachable = inr (inr own);
    }
    ending-Lasts reason (some r) s x own k fit ok = conclude-Lasts r.outcome r s x own k fit ok

    crash-Lasts :
        (reason : String) (s : PageState) (x : Site L)
        → OwnEntry x.queue
        → Holds h t.page_index s x.world.redis.pages
        → Lasts (recover_crash b c now t v reason x)
    crash-Lasts reason s x own k =
        let forced = force_terminal-In env h alone reason s x.world k in
        let freed = released-In env h alone s x.world k in
        if-Lasts (final_attempt c now t) _ _
          (deleted-Lasts _ (ended_kept forced.0 _ forced.3 forced.2))
          (record {
            state = freed.0;
            holds = freed.1;
            reachable = inr (inl (freed.2, requeue-IsBack true x.queue own));
          })

    -- What a `process_page` that raised has left of the page.
    abbrev pub Left : Option World → Type 0
    Left none = Unit
    Left (some w) = (s : PageState) × Holds h t.page_index s w.redis.pages

    -- A worker that handles a task does not strand its page: behind it the page is terminal, or it is
    -- at a checkpoint and a new entry of it waits in the main lane, or the task's own entry is still
    -- pending. So on every outcome, if `process_page` raises, and if it is interrupted. Nobody else
    -- acts on the job, the page's key lasts, publications get through, and a page that is found in a
    -- running state comes from this worker's own pending list.
    pub handle_page_keeps :
        (reason : String) (crash : Option World) (s : PageState) (x : Site L)
        → ((n : ℕ) → 1 ≤ v.heard n)
        → OwnEntry x.queue
        → Holds h t.page_index s x.world.redis.pages
        → (is_running s ≡ true → t.recovered ≡ true)
        → Left crash
        → Lasts (handle_page b c now t v reason crash x)
    unfolding handle_page
    handle_page_keeps reason (some w) s x heard own k mine (s', left) =
        crash-Lasts reason s' (record x { world = w }) own left
    handle_page_keeps reason none s x heard own k mine left =
        let r = process_page-Settled env h s x.world alone heard k in
        ending-Lasts reason (process_page env x.world).0 r.0
          (record x { world = (process_page env x.world).1 }) own r.1 r.2
          (process_page-IsAccepted env h alone s x.world mine k)

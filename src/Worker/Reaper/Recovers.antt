-- ===== src/Worker/Reaper/Recovers.antt =====
-- What the reaper leaves of a page and of its entry.
use ocr_orchestrator.Common.{
  ℕ, ◌≡◌, ◌⊎◌, inl, inr, refl, ◌∙◌, Bool, true, false, String, if◌then◌else◌, arith,
}
use ocr_orchestrator.Queue.State.{PageState, is_terminal, is_running}
use ocr_orchestrator.Queue.Store.Alone.{Holds}
use ocr_orchestrator.Queue.Tasks.{PageTask, main, retry_fields}
use ocr_orchestrator.Queue.Broker.{Broker, Documented, waiting, Status, absent}
use ocr_orchestrator.Queue.Streams.{Queue, ack, requeue_commands, pipeline}
use ocr_orchestrator.Queue.Streams.Requeue.{
  status, Carried, Queued, settled, status-ack, new_id, requeue_lem, requeue_keeps, is_stream_self,
}
use ocr_orchestrator.Worker.Limits.{Settings, exhausted}
use ocr_orchestrator.Worker.Pipeline.{Env, World, release_claim}
use ocr_orchestrator.Worker.Pipeline.Alone.{IsAlone, get_page-In, force_terminal-In}
use ocr_orchestrator.Worker.Loop.Kept.{released-In, OwnEntry}
use ocr_orchestrator.Worker.Reaper.{Ward, recover, recover_live, page_env}

module _ {L : Type 0} (b : Broker L) (docs : Documented b) (c : Settings) (now : ℕ)
    (t : PageTask) where
  Carried-gone : (s : Status) → Carried s t.job_id t.page_index → settled s ≡ absent
  Carried-gone absent h = refl
  Carried-gone (waiting f) h = refl
  Carried-gone (Status.held f lease) h = refl
  Carried-gone (Status.acked f) h = absurd h
  Carried-gone (Status.tombstone l) h = absurd h

  ack_settles :
      (q : Queue L)
      → OwnEntry b docs now t q
      → status b (ack b t.stream t.entry_id q) t.stream t.entry_id ≡ absent
  ack_settles q own = ground (
    arith,
    status-ack b docs t.stream t.entry_id q t.stream t.entry_id,
    is_stream_self t.stream,
    Carried-gone (status b q t.stream t.entry_id) own,
  )

  module _ (v : Env) (h : ℕ) (alone : IsAlone (page_env b c now t v) h) where
    -- The orphan is settled, and its page is terminal or waits at a checkpoint in a new entry.
    pub record Recovered (x : Ward L) : Type 0 where
      pub state : PageState
      pub holds : Holds h t.page_index state x.world.redis.pages
      pub reachable :
          (is_terminal state ≡ true)
          ⊎ ((is_running state ≡ false)
              × ((i : ℕ) × (status b x.queue main i ≡ waiting (retry_fields true now t))))
      pub gone : status b x.queue t.stream t.entry_id ≡ absent

    if-Recovered :
        (test : Bool) (x y : Ward L)
        → (test ≡ true → Recovered x)
        → (test ≡ false → Recovered y)
        → Recovered (if test then x else y)
    if-Recovered true x y h k = h refl
    if-Recovered false x y h k = k refl

    recover_live-Recovered :
        (reason : String) (s : PageState) (w : World) (x : Ward L)
        → OwnEntry b docs now t x.queue
        → Holds h t.page_index s w.redis.pages
        → Recovered (recover_live b c now t v reason w x)
    recover_live-Recovered reason s w x own k =
        let env = page_env b c now t v in
        let forced = force_terminal-In env h alone reason s w k in
        let freed = released-In env h alone s w k in
        let back = requeue_lem b docs true now t x.queue own in
        if-Recovered (exhausted c now t) _ _
          (λ e. record {
            state = forced.0;
            holds = forced.3;
            reachable = inl forced.2;
            gone = ack_settles x.queue own;
          })
          (λ e. record {
            state = freed.0;
            holds = freed.1;
            reachable =
                inr (freed.2, (new_id b docs main (retry_fields true now t) x.queue, back.0));
            gone = back.1 ∙ Carried-gone _ own;
          })

    -- The reaper strands no page of an orphan: behind it the orphan is settled, and its page is
    -- terminal, or it is at a checkpoint and a new entry of it, with one attempt more, waits in the main
    -- lane. Nobody else acts on the job, and the page's key lasts.
    pub recover-Recovered :
        (reason : String) (s : PageState) (x : Ward L)
        → OwnEntry b docs now t x.queue
        → Holds h t.page_index s x.world.redis.pages
        → Recovered (recover b c now t v reason x)
    unfolding recover
    recover-Recovered reason s x own k =
        let env = page_env b c now t v in
        let g = get_page-In env h alone s x.world k in
        rw g.0 (
          if-Recovered (is_terminal s) _ _
            (λ e. record {
              state = s;
              holds = g.1;
              reachable = inl e;
              gone = ack_settles x.queue own;
            })
            (λ e. recover_live-Recovered reason s _ x own g.1))

    -- A reaper that dies anywhere behind the release of the claim, before, within or after the requeue,
    -- leaves the page at a checkpoint, with an entry that waits or is pending.
    pub give_back_cut :
        (reached : ℕ) (s : PageState) (w : World) (q : Queue L)
        → OwnEntry b docs now t q
        → Holds h t.page_index s w.redis.pages
        → (u : PageState) × Holds h t.page_index u
            (release_claim (page_env b c now t v) w).redis.pages
          × (is_running u ≡ false)
          × Queued b (pipeline b reached (requeue_commands true now t) q) t.job_id t.page_index
    give_back_cut reached s w q own k =
        let freed = released-In (page_env b c now t v) h alone s w k in
        (freed.0, freed.1, freed.2, requeue_keeps b docs true now t reached q own)

-- ===== src/Worker/Loop.antt =====
-- app/worker/main.py: what a worker does with a task around `process_page`, and how many tasks it
-- asks for. Tracing, metrics, logs and the resolution of the page's file are left out.
pub mod Accepted
pub mod Kept
use ocr_orchestrator.Common.{
  ℕ, suc, ◌+◌, ◌-◌, ◌≤◌, min, max, Bool, true, false, not, ◌&&◌, Option, none, some, List, [], ◌∷◌,
  ◌++◌, String, ltb, leb, ◌==◌, if◌then◌else◌, length,
}
use ocr_orchestrator.Queue.Tasks.{Stream, lead, main, PageTask, or_else}
use ocr_orchestrator.Queue.Broker.{Broker}
use ocr_orchestrator.Queue.Streams.{Queue, ack, requeue}
use ocr_orchestrator.Queue.Streams as Streams
use ocr_orchestrator.Queue.Consumer.{read, read_own_pending}
use ocr_orchestrator.Queue.Store.{progress}
use ocr_orchestrator.Worker.Limits.{Settings, final_attempt}
use ocr_orchestrator.Worker.Pipeline.{
  Outcome, completed, resumed, already_terminal, owned_by_other, degraded, handed_off, saturated,
  page_failed, PageResult, Env, World, enter, release_claim, force_terminal,
}
use ocr_orchestrator.Worker.Process.{process_page}

-- The job of a task in the store, the queue, and what the worker has done.
pub record Site (L : Type 0) : Type 0 where
  pub world : World
  pub queue : Queue L
  pub recorded : List Outcome
  pub document_deleted : Bool
  pub paused_ms : ℕ

-- `process_page` returns a result, raises an Exception, or is interrupted by another BaseException,
-- which leaves `_handle_page` as well.
pub data Ending : Type 0 where
  returned : PageResult → Ending
  raised interrupted : Ending

abbrev pub ending : Option PageResult → Ending
ending none = interrupted
ending (some r) = returned r

-- The arguments that `_handle_page` passes for a task.
abbrev pub env_for : Settings → ℕ → PageTask → Env → Env
env_for c now t v = record v {
  index = t.page_index;
  final_attempt = final_attempt c now t;
  handoff = c.stage_handoff;
  reclaim = t.recovered;
}

abbrev pub is_complete : ℕ × ℕ → Bool
is_complete (done_count, total) = ltb 0 total && leb total done_count

-- `_maybe_delete_document`
abbrev pub maybe_delete_document : {L : Type 0} → Env → Site L → Site L
maybe_delete_document v x =
    let w = enter v x.world in
    record x {
      world = w;
      document_deleted =
          if is_complete (progress (v.clock x.world.tick) w.redis)
          then true
          else x.document_deleted;
    }

-- How long a slot rests after a saturation.
abbrev pub pause_ms : Settings → PageResult → ℕ
pause_ms c r = min (or_else r.retry_after_ms c.saturation_pause_ms) c.saturation_pause_ms

module _ {L : Type 0} (b : Broker L) (c : Settings) (now : ℕ) (t : PageTask) (v : Env) where
  abbrev pub page_env : Env
  page_env = env_for c now t v

  abbrev pub put_back : Bool → Outcome → ℕ → Site L → Site L
  put_back counted o pause x = record x {
    queue = requeue b counted now t x.queue;
    recorded = x.recorded ++ o ∷ [];
    paused_ms = x.paused_ms + pause;
  }

  abbrev pub settle_entry : Site L → Site L
  settle_entry x = record x { queue = ack b t.stream t.entry_id x.queue }

  abbrev pub finish : Outcome → Site L → Site L
  finish o x =
      maybe_delete_document page_env
        (record x { queue = ack b t.stream t.entry_id x.queue; recorded = x.recorded ++ o ∷ [] })

  -- Behind `process_page`, by its outcome.
  abbrev pub conclude : Outcome → PageResult → Site L → Site L
  conclude handed_off r x = put_back false handed_off 0 x
  conclude saturated r x =
      if final_attempt c now t then finish saturated x else put_back true saturated (pause_ms c r) x
  conclude o r x = finish o x

  -- `except Exception`
  abbrev pub recover_crash : String → Site L → Site L
  recover_crash reason x =
      if final_attempt c now t
      then maybe_delete_document page_env
          (settle_entry (record x { world = (force_terminal page_env reason x.world).1 }))
      else record x { world = release_claim page_env x.world; queue = requeue b true now t x.queue }

  abbrev pub after_page : String → Ending → Site L → Site L
  after_page reason (returned r) x = conclude r.outcome r x
  after_page reason raised x = recover_crash reason x
  after_page reason interrupted x = x

  -- What `process_page` leaves: its own result, or, if it raises, any world that it got to.
  abbrev pub run_page : Option World → World → Ending × World
  run_page (some crashed) w = (raised, crashed)
  run_page none w = let r = process_page page_env w in (ending r.0, r.1)

  -- `_handle_page`
  unfoldable pub handle_page : (reason : String) (crash : Option World) → Site L → Site L
  handle_page reason crash x =
      let r = run_page crash x.world in after_page reason r.0 (record x { world = r.1 })

-- ===== src/Api/Connections.antt =====
-- The theorems on the event stream at a concrete connection.
use ocr_orchestrator.Common.{ℕ, ◌≢◌, refl, false, none, some, List, [], ◌∷◌, arith, leb, take}
use ocr_orchestrator.Queue.Results.{ResultEvent}
use ocr_orchestrator.Queue.Results.InMemory.{in_memory, in_memory-Documented}
use ocr_orchestrator.Api.Stream.{Connection, SubscriberSlots, frames, unfinished}
use ocr_orchestrator.Api.Stream.Resumes.{events_of, frames_in_order}
use ocr_orchestrator.Queue.Results.Cursors.{IsPrefix}
use ocr_orchestrator.Api.Stream.Reasons.{Reason, frames_end_reason}

abbrev event : ℕ → ResultEvent
event n = record { entry_id = (n, 0); seq = n; event = "page.final"; data_json = "{}" }

abbrev published : List ResultEvent
published = event 1 ∷ event 2 ∷ event 3 ∷ []

-- Two events are there at first, and the third comes in the first turn; the time is over in the next.
abbrev connection : Connection (List ResultEvent)
connection = record {
  log = λ n. take n published;
  fails = λ n. false;
  progress_fails = λ n. false;
  is_disconnected = λ n. false;
  is_over = λ n. leb 4 n;
  progress = λ n. (2, 5);
  retry_ms = 1000;
  history_limit = 500;
  batch = 10;
}

abbrev slots : SubscriberSlots
slots = record { limit = 2; active = 1; refused = 0; peak = 1 }

frames_in_order_example : IsPrefix (events_of (frames in_memory connection 5 none).0) published
frames_in_order_example =
    frames_in_order in_memory in_memory-Documented connection published
      ((refl, (refl, tt)), ((refl, tt), (tt, tt))) (λ n. n) (λ n. refl) (refl, (refl, (refl, tt))) 5
      none

frames_end_reason_example :
    ((frames in_memory connection 5 (some (1, 0))).1 ≢ unfinished)
    × Reason in_memory connection
        (frames in_memory connection 5 (some (1, 0))).1
        (frames in_memory connection 5 (some (1, 0))).0
frames_end_reason_example =
    frames_end_reason in_memory connection 4 5 (some (1, 0)) refl (omega arith) (omega arith)

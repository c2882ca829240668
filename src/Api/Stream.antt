-- ===== src/Api/Stream.antt =====
-- app/api/stream.py: the server-sent events of a job, as the list of frames of one connection, and
-- the cap on connections. What the connection meets is an input; the payloads are left out but for
-- what a client resumes by.
pub mod Resumes
pub mod Capped
pub mod Reasons
use package.text.Mathlib.Text.{◌==◌ as str_eq}
use ocr_orchestrator.Common.{
  ℕ, zero, suc, ◌+◌, ◌-◌, max, Bool, true, false, ◌&&◌, ◌||◌, Option, none, some, List, [], ◌∷◌,
  ◌++◌, String, ltb, leb, if◌then◌else◌, map,
}
use ocr_orchestrator.Queue.Results.{
  EntryId, ResultEvent, Log, last_of, gap_after, history, tail, window,
}

-- `SubscriberSlots`
pub record SubscriberSlots : Type 0 where
  pub limit : ℕ
  pub active : ℕ
  pub refused : ℕ
  pub peak : ℕ

unfoldable pub acquire : SubscriberSlots → Bool × SubscriberSlots
acquire s =
    if leb s.limit s.active
    then (false, record s { refused = suc s.refused })
    else (true, record s { active = suc s.active; peak = max s.peak (suc s.active) })

unfoldable pub release : SubscriberSlots → SubscriberSlots
release s = record s { active = s.active - 1 }

pub data Frame : Type 0 where
  retry_after : ℕ → Frame
  -- `done`, `resumed_from` and the window
  opened : (done_count : ℕ) → (resumed_from window_lo window_hi : Option EntryId) → Frame
  gap : (window_lo : Option EntryId) → Frame
  sent : ResultEvent → Frame
  heartbeat : Frame
  derived_complete : (total done_count : ℕ) → Frame

-- How the generator ends: behind its loop (`sse_stream_closed`), in a turn in which the client is gone
-- (`sse_client_gone`) or the time is over (`sse_max_duration`), at an access at which a RedisError leaves
-- it (`sse_redis_failed`), or out of fuel, which is the model's. Turns and accesses are counted as in
-- Connection.
pub data Ending : Type 0 where
  closed : Ending
  client_gone max_duration failed : ℕ → Ending
  unfinished : Ending

abbrev pub Frames : Type 0
Frames = List Frame × Ending

abbrev pub prepend : List Frame → Frames → Frames
prepend fs (gs, e) = (fs ++ gs, e)

-- The accesses of a connection are counted: the check for a gap, the window, the history, and a turn
-- of the loop each. In a turn the tail may fail, and behind a heartbeat the look at the progress.
pub record Connection (R : Type 0) : Type 0 where
  pub log : ℕ → R
  pub fails : ℕ → Bool
  pub progress_fails : ℕ → Bool
  pub is_disconnected : ℕ → Bool
  pub is_over : ℕ → Bool
  pub progress : ℕ → ℕ × ℕ
  pub retry_ms : ℕ
  pub history_limit : ℕ
  pub batch : ℕ

abbrev pub completes : List ResultEvent → Bool
completes [] = false
completes (e ∷ es) = str_eq e.event "job.complete" || completes es

abbrev pub is_complete : ℕ × ℕ → Bool
is_complete (done_count, total) = ltb 0 total && leb total done_count

module _ {R : Type 0} (g : Log R) (x : Connection R) where
  abbrev pub received : (EntryId → Frames) → ℕ → EntryId → List ResultEvent → Frames
  received next n last [] =
      let p = x.progress n in
      prepend (heartbeat ∷ []) (
        if x.progress_fails n
        then ([], failed n)
        else if is_complete p
        then (derived_complete p.1 p.0 ∷ [], closed)
        else next last)
  received next n last (e ∷ es) =
      prepend (map sent (e ∷ es))
        (if completes (e ∷ es) then ([], closed) else next (last_of last (e ∷ es)))

  -- One turn of the loop, before `next`.
  abbrev pub turn : (EntryId → Frames) → ℕ → EntryId → Frames
  turn next n last =
      if x.is_disconnected n
      then ([], client_gone n)
      else if x.is_over n
      then (gap (some last) ∷ [], max_duration n)
      else if x.fails n
      then ([], failed n)
      else received next n last (tail g last x.batch (x.log n))

  unfoldable pub loop : (fuel n : ℕ) → EntryId → Frames
  loop zero n last = ([], unfinished)
  loop (suc fuel) n last = turn (loop fuel (suc n)) n last

  abbrev pub or_zero_id : Option EntryId → EntryId
  or_zero_id none = (0, 0)
  or_zero_id (some c) = c

  abbrev pub replay : (fuel : ℕ) → Option EntryId → Frames
  replay fuel cursor =
      let events = history g cursor x.history_limit (x.log 2) in
      prepend (map sent events) (
        if completes events then ([], closed) else loop fuel 3 (last_of (or_zero_id cursor) events))

  abbrev pub notice : Bool → Option EntryId → List Frame
  notice resync lo = if resync then gap lo ∷ [] else []

  abbrev pub open_stream : (fuel : ℕ) → Bool → Option EntryId → Frames
  open_stream fuel resync cursor =
      if x.fails 1
      then ([], failed 1)
      else prepend
          (opened (x.progress 1).0 cursor (window g (x.log 1)).0 (window g (x.log 1)).1
            ∷ notice resync (window g (x.log 1)).0)
          (if x.fails 2 then ([], failed 2) else replay fuel cursor)

  abbrev pub resume : (fuel : ℕ) → Option EntryId → Frames
  resume fuel none = open_stream fuel false none
  resume fuel (some c) =
      if x.fails 0
      then ([], failed 0)
      else if gap_after g (x.log 0) c
      then open_stream fuel true none
      else open_stream fuel false (some c)

  -- `_frames`
  unfoldable pub frames : (fuel : ℕ) → Option EntryId → Frames
  unfolding loop
  frames fuel cursor = prepend (retry_after x.retry_ms ∷ []) (resume fuel cursor)

  -- `_events`: the frame behind a failure, and the slot, which is released on every way out.
  abbrev pub closing : Ending → List Frame
  closing (failed n) = gap none ∷ []
  closing closed = []
  closing (client_gone n) = []
  closing (max_duration n) = []
  closing unfinished = []

  unfoldable pub events :
      (fuel : ℕ) → Option EntryId → SubscriberSlots → List Frame × SubscriberSlots
  unfolding frames release
  events fuel cursor s = let f = frames fuel cursor in (f.0 ++ closing f.1, release s)

-- `stream_results`: 404 for an unknown job, 503 at the cap, or a stream.
pub data Response : Type 0 where
  not_found too_many : Response
  streaming : Option EntryId → Response

abbrev pub admitted : Option EntryId → Bool × SubscriberSlots → Response × SubscriberSlots
admitted cursor (true, s) = (streaming cursor, s)
admitted cursor (false, s) = (too_many, s)

abbrev pub first_some : Option EntryId → Option EntryId → Option EntryId
first_some none c = c
first_some (some c) _ = some c

unfoldable pub stream_results :
    (job_known : Bool) (header query : Option EntryId)
    → SubscriberSlots
    → Response × SubscriberSlots
unfolding acquire
stream_results job_known header query s =
    if job_known then admitted (first_some header query) (acquire s) else (not_found, s)

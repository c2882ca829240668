-- ===== src/Api/Stream/Reasons.antt =====
-- Why a connection of app/api/stream.py ends.
use package.text.Mathlib.Text.{◌==◌ as str_eq}
use ocr_orchestrator.Common.{
  ℕ, zero, suc, ◌-◌, ◌≤◌, ◌<◌, ◌≡◌, ◌≢◌, refl, Bool, true, false, ◌||◌, Option, none, some, List,
  [], ◌∷◌, ◌++◌, arith, ◌⊎◌, inl, inr, if◌then◌else◌, Bool-cases, map,
}
use ocr_orchestrator.Queue.Results.{
  EntryId, ResultEvent, Log, gap_after, history, tail, last_of, window,
}
use ocr_orchestrator.Api.Stream.{
  Frame, retry_after, opened, gap, sent, heartbeat, derived_complete, Ending, closed, client_gone,
  max_duration, failed, unfinished, Frames, prepend, Connection, completes, is_complete, received,
  turn, loop, or_zero_id, replay, notice, open_stream, resume, frames,
}
use ocr_orchestrator.Api.Stream.Capped.{frames_end}

-- Whether the frames say that the job is complete: by its event, or by the state of the job.
abbrev pub is_told : List Frame → Bool
is_told [] = false
is_told (sent e ∷ fs) = str_eq e.event "job.complete" || is_told fs
is_told (derived_complete t d ∷ fs) = is_complete (d, t) || is_told fs
is_told (retry_after n ∷ fs) = is_told fs
is_told (opened d c lo hi ∷ fs) = is_told fs
is_told (gap lo ∷ fs) = is_told fs
is_told (heartbeat ∷ fs) = is_told fs

or_right : (a b : Bool) → b ≡ true → (a || b) ≡ true
or_right a b h = ground arith

is_told-append : (fs gs : List Frame) → is_told gs ≡ true → is_told (fs ++ gs) ≡ true
is_told-append [] gs h = h
is_told-append (sent e ∷ fs) gs h =
    or_right (str_eq e.event "job.complete") (is_told (fs ++ gs)) (is_told-append fs gs h)
is_told-append (derived_complete t d ∷ fs) gs h =
    or_right (is_complete (d, t)) (is_told (fs ++ gs)) (is_told-append fs gs h)
is_told-append (retry_after n ∷ fs) gs h = is_told-append fs gs h
is_told-append (opened d c lo hi ∷ fs) gs h = is_told-append fs gs h
is_told-append (gap lo ∷ fs) gs h = is_told-append fs gs h
is_told-append (heartbeat ∷ fs) gs h = is_told-append fs gs h

or_again : (a b c : Bool) → (a || b) ≡ true → (b ≡ true → c ≡ true) → (a || c) ≡ true
or_again true b c h f = refl
or_again false b c h f = f h

is_told-sent :
    (es : List ResultEvent) (gs : List Frame)
    → completes es ≡ true
    → is_told (map sent es ++ gs) ≡ true
is_told-sent [] gs h = cc
is_told-sent (e ∷ es) gs h =
    or_again (str_eq e.event "job.complete") (completes es) (is_told (map sent es ++ gs)) h
      (is_told-sent es gs)

module _ {R : Type 0} (g : Log R) (x : Connection R) where
  -- What a way out stands for.
  abbrev pub Reason : Ending → List Frame → Type 0
  Reason closed fs = is_told fs ≡ true
  Reason (client_gone n) fs = x.is_disconnected n ≡ true
  Reason (max_duration n) fs = x.is_over n ≡ true
  Reason (failed n) fs = (x.fails n ≡ true) ⊎ (x.progress_fails n ≡ true)
  Reason unfinished fs = Unit

  abbrev HasReason : Frames → Type 0
  HasReason f = Reason f.1 f.0

  Reason-prepend : (e : Ending) (fs gs : List Frame) → Reason e gs → Reason e (fs ++ gs)
  Reason-prepend closed fs gs h = is_told-append fs gs h
  Reason-prepend (client_gone n) fs gs h = h
  Reason-prepend (max_duration n) fs gs h = h
  Reason-prepend (failed n) fs gs h = h
  Reason-prepend unfinished fs gs h = h

  behind : (fs : List Frame) (f : Frames) → HasReason f → HasReason (prepend fs f)
  behind fs f h = Reason-prepend f.1 fs f.0 h

  sent-HasReason :
      (es : List ResultEvent) (next : Frames)
      → HasReason next
      → HasReason (prepend (map sent es) (if completes es then ([], closed) else next))
  sent-HasReason es next h = elim (Bool-cases (completes es)) [
    | inl e ↦ rw e (is_told-sent es [] e)
    | inr e ↦ rw e (behind (map sent es) next h)
  ]

  received-HasReason :
      (next : EntryId → Frames) (n : ℕ) (c : EntryId) (es : List ResultEvent)
      → ((d : EntryId) → HasReason (next d))
      → HasReason (received g x next n c es)
  received-HasReason next n c [] q = elim (Bool-cases (x.progress_fails n)) [
    | inl f ↦ rw f (inr f)
    | inr f ↦ rw f (elim (Bool-cases (is_complete (x.progress n))) [
      | inl e ↦ rw e (rw e refl)
      | inr e ↦ rw e (behind (heartbeat ∷ []) (next c) (q c))
    ])
  ]
  received-HasReason next n c (e ∷ es) q =
      sent-HasReason (e ∷ es) (next (last_of c (e ∷ es))) (q (last_of c (e ∷ es)))

  turn-HasReason :
      (next : EntryId → Frames) (n : ℕ) (c : EntryId)
      → ((d : EntryId) → HasReason (next d))
      → HasReason (turn g x next n c)
  turn-HasReason next n c q = elim (Bool-cases (x.is_disconnected n)) [
    | inl e ↦ rw e e
    | inr e ↦ rw e (elim (Bool-cases (x.is_over n)) [
      | inl e' ↦ rw e' e'
      | inr e' ↦ rw e' (elim (Bool-cases (x.fails n)) [
        | inl f ↦ rw f (inl f)
        | inr f ↦ rw f (received-HasReason next n c (tail g c x.batch (x.log n)) q)
      ])
    ])
  ]

  loop-HasReason : (fuel n : ℕ) (c : EntryId) → HasReason (loop g x fuel n c)
  unfolding loop
  loop-HasReason zero n c = tt
  loop-HasReason (suc fuel) n c =
      turn-HasReason (loop g x fuel (suc n)) n c (loop-HasReason fuel (suc n))

  open_stream-HasReason :
      (fuel : ℕ) (resync : Bool) (cursor : Option EntryId)
      → HasReason (open_stream g x fuel resync cursor)
  open_stream-HasReason fuel resync cursor = elim (Bool-cases (x.fails 1)) [
    | inl e ↦ rw e (inl e)
    | inr e ↦ rw e (elim (Bool-cases (x.fails 2)) [
      | inl f ↦ rw f (inl f)
      | inr f ↦
          let es = history g cursor x.history_limit (x.log 2) in
          let c = last_of (or_zero_id g x cursor) es in
          rw f (
            behind
              (opened (x.progress 1).0 cursor (window g (x.log 1)).0 (window g (x.log 1)).1
                ∷ notice g x resync (window g (x.log 1)).0)
              (replay g x fuel cursor)
              (sent-HasReason es (loop g x fuel 3 c) (loop-HasReason fuel 3 c)))
    ])
  ]

  resume-HasReason : (fuel : ℕ) (cursor : Option EntryId) → HasReason (resume g x fuel cursor)
  resume-HasReason fuel none = open_stream-HasReason fuel false none
  resume-HasReason fuel (some c) = elim (Bool-cases (x.fails 0)) [
    | inl e ↦ rw e (inl e)
    | inr e ↦ rw e (elim (Bool-cases (gap_after g (x.log 0) c)) [
      | inl missed ↦ rw missed (open_stream-HasReason fuel true none)
      | inr whole ↦ rw whole (open_stream-HasReason fuel false (some c))
    ])
  ]

  -- A connection ends, whatever it meets, in the turn in which its time is over at the latest: the fuel
  -- of so many turns is enough. Its loop is left only if the client was told that the job is complete, by
  -- the event or by a progress that is complete; or else it ends in a turn in which the client is gone or
  -- the time is over, or at an access that fails.
  pub frames_end_reason :
      (k fuel : ℕ) (cursor : Option EntryId)
      → x.is_over k ≡ true
      → 3 ≤ k
      → k - 3 < fuel
      → ((frames g x fuel cursor).1 ≢ unfinished)
        × Reason (frames g x fuel cursor).1 (frames g x fuel cursor).0
  unfolding frames
  frames_end_reason k fuel cursor over h p = (
    frames_end g x k over fuel h p cursor,
    behind (retry_after x.retry_ms ∷ []) (resume g x fuel cursor) (resume-HasReason fuel cursor),
  )

-- ===== src/Api/Stream/Capped.antt =====
-- The cap on subscribers, and the end of a connection.
use ocr_orchestrator.Common.{
  ℕ, zero, suc, ◌-◌, ◌≤◌, ◌<◌, ◌+◌, ◌≡◌, ◌≢◌, sym, ap, ◌∙◌, Bool, true, false, Option, none, some,
  List, [], ◌∷◌, arith, if◌then◌else◌, ltb, leb, ◌&&◌, Bool-cases, inl, inr,
}
use ocr_orchestrator.Queue.Results.{EntryId, ResultEvent, Log, gap_after, history, tail, last_of}
use ocr_orchestrator.Api.Stream.{
  SubscriberSlots, Frames, closed, failed, unfinished, derived_complete, or_zero_id, Connection,
  completes, is_complete, received, turn, loop, open_stream, replay, resume, frames, events,
  Response, stream_results, not_found, too_many, streaming,
}

-- The bounds of the cap.
pub record IsCapped (s : SubscriberSlots) : Type 0 where
  pub within : s.active ≤ s.limit
  pub below_peak : s.active ≤ s.peak
  pub peak_within : s.peak ≤ s.limit

abbrev pub streamed : Response → ℕ
streamed (streaming c) = 1
streamed not_found = 0
streamed too_many = 0

abbrev pub turned_away : Response → ℕ
turned_away (streaming c) = 0
turned_away not_found = 0
turned_away too_many = 1

-- A request is streamed exactly if its job is known and the cap is not reached, and turned away as
-- one too many exactly if its job is known and the cap is reached. It takes a slot or is counted as
-- refused accordingly, and the bounds of the cap are kept.
pub stream_results_lem :
    (job_known : Bool) (header query : Option EntryId) (s : SubscriberSlots)
    → IsCapped s
    → let r = stream_results job_known header query s in
      IsCapped r.1
      × (streamed r.0 ≡ (if job_known && ltb s.active s.limit then 1 else 0))
      × (turned_away r.0 ≡ (if job_known && leb s.limit s.active then 1 else 0))
      × (r.1.active ≡ s.active + streamed r.0)
      × (r.1.refused ≡ s.refused + turned_away r.0)
unfolding stream_results
stream_results_lem job_known header query s h =
    (ground arith, ground arith, ground arith, ground arith, ground arith)

-- A connection gives its slot back, however it ends, and the bounds of the cap are kept.
pub events_release :
    {R : Type 0} (g : Log R) (x : Connection R) (fuel : ℕ) (cursor : Option EntryId)
    (s : SubscriberSlots)
    → IsCapped s
    → 0 < s.active
    → let r = (events g x fuel cursor s).1 in IsCapped r × (suc r.active ≡ s.active)
unfolding events
events_release g x fuel cursor s h p = (omega arith, omega arith)

module _ {R : Type 0} (g : Log R) (x : Connection R) (k : ℕ) (over : x.is_over k ≡ true) where
  abbrev Ends : Frames → Type 0
  Ends f = f.1 ≢ unfinished

  if-Ends : (b : Bool) (f h : Frames) → Ends f → Ends h → Ends (if b then f else h)
  if-Ends true f h p q = p
  if-Ends false f h p q = q

  received-Ends :
      (next : EntryId → Frames) (n : ℕ) (c : EntryId) (es : List ResultEvent)
      → ((d : EntryId) → Ends (next d))
      → Ends (received g x next n c es)
  received-Ends next n c [] q =
      let told : Frames = (derived_complete (x.progress n).1 (x.progress n).0 ∷ [], closed) in
      if-Ends (x.progress_fails n) ([], failed n)
        (if is_complete (x.progress n) then told else next c) (λ e. cc)
        (if-Ends (is_complete (x.progress n)) told (next c) (λ e. cc) (q c))
  received-Ends next n c (e ∷ es) q =
      if-Ends (completes (e ∷ es)) ([], closed) (next (last_of c (e ∷ es))) (λ e. cc)
        (q (last_of c (e ∷ es)))

  turn-Ends :
      (next : EntryId → Frames) (n : ℕ) (c : EntryId)
      → (x.is_over n ≡ false → (d : EntryId) → Ends (next d))
      → Ends (turn g x next n c)
  turn-Ends next n c q = elim (Bool-cases (x.is_disconnected n)) [
    | inl e ↦ rw e (λ d. cc)
    | inr e ↦ rw e (elim (Bool-cases (x.is_over n)) [
      | inl e' ↦ rw e' (λ d. cc)
      | inr e' ↦ rw e' (
          if-Ends (x.fails n) ([], failed n) (received g x next n c (tail g c x.batch (x.log n)))
            (λ d. cc) (received-Ends next n c (tail g c x.batch (x.log n)) (q e')))
    ])
  ]

  not_last : (n : ℕ) → x.is_over n ≡ false → n ≢ k
  not_last n e p = clash (sym e ∙ (ap x.is_over p ∙ over))
    where
      clash : false ≡ true → ⊥
      clash e = cc

  -- The loop ends in the turn in which its time is over, at the latest: with that many turns it
  -- does not run out of fuel.
  pub loop_ends :
      (fuel n : ℕ) (c : EntryId) → n ≤ k → k - n < fuel → (loop g x fuel n c).1 ≢ unfinished
  unfolding loop
  loop_ends zero n c h p = absurd (omega arith)
  loop_ends (suc fuel) n c h p = turn-Ends (loop g x fuel (suc n)) n c (λ e d.
      let more : n ≢ k = not_last n e in loop_ends fuel (suc n) d (omega arith) (omega arith))

  module _ (fuel : ℕ) (h : 3 ≤ k) (p : k - 3 < fuel) where
    replay-Ends : (cursor : Option EntryId) → Ends (replay g x fuel cursor)
    replay-Ends cursor =
        let es = history g cursor x.history_limit (x.log 2) in
        let c = last_of (or_zero_id g x cursor) es in
        if-Ends (completes es) ([], closed) (loop g x fuel 3 c) (λ e. cc) (loop_ends fuel 3 c h p)

    open_stream-Ends :
        (resync : Bool) (cursor : Option EntryId) → Ends (open_stream g x fuel resync cursor)
    open_stream-Ends resync cursor = elim (Bool-cases (x.fails 1)) [
      | inl e ↦ rw e (λ d. cc)
      | inr e ↦ rw e (
          if-Ends (x.fails 2) ([], failed 2) (replay g x fuel cursor) (λ d. cc)
            (replay-Ends cursor))
    ]

    resume-Ends : (cursor : Option EntryId) → Ends (resume g x fuel cursor)
    resume-Ends none = open_stream-Ends false none
    resume-Ends (some c) = elim (Bool-cases (x.fails 0)) [
      | inl e ↦ rw e (λ d. cc)
      | inr e ↦ rw e (
          if-Ends (gap_after g (x.log 0) c) (open_stream g x fuel true none)
            (open_stream g x fuel false (some c)) (open_stream-Ends true none)
            (open_stream-Ends false (some c)))
    ]

    -- A connection ends, whatever it meets: if its time is over in some turn of the loop, it ends there
    -- at the latest, and the fuel of so many turns is enough.
    pub frames_end : (cursor : Option EntryId) → (frames g x fuel cursor).1 ≢ unfinished
    unfolding frames
    frames_end cursor = resume-Ends cursor

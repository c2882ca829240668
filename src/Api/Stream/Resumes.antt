-- ===== src/Api/Stream/Resumes.antt =====
-- What a subscriber gets behind its cursor, and that a connection ends.
use mathlib.Core.Path.{subst}
use mathlib.Core.List.{append_assoc, append-nil}
use ocr_orchestrator.Common.{
  ℕ, zero, suc, ◌≡◌, refl, sym, ap, ◌∙◌, Bool, true, false, Option, none, some, List, [], ◌∷◌, ◌++◌,
  All, if◌then◌else◌, take, map, Bool-cases, inl, inr,
}
use ocr_orchestrator.Queue.Results.{
  EntryId, id_lt, ResultEvent, last_of, after_id, from_start, Log, Documented, gap_after, history,
  tail,
}
use ocr_orchestrator.Queue.Results.Numbered.{Increasing}
use ocr_orchestrator.Queue.Results.Windows.{after_all}
use ocr_orchestrator.Queue.Results.Cursors.{IsPrefix, take-IsPrefix, after-take-IsPrefix, left_over}
use ocr_orchestrator.Api.Stream.{
  Frame, retry_after, opened, gap, sent, heartbeat, derived_complete, Ending, closed, client_gone,
  max_duration, failed, unfinished, Frames, prepend, Connection, completes, is_complete, received,
  turn, loop, or_zero_id, replay, open_stream, resume, frames,
}

-- The events that frames carry.
abbrev pub events_of : List Frame → List ResultEvent
events_of [] = []
events_of (sent e ∷ fs) = e ∷ events_of fs
events_of (retry_after n ∷ fs) = events_of fs
events_of (opened d c lo hi ∷ fs) = events_of fs
events_of (gap lo ∷ fs) = events_of fs
events_of (heartbeat ∷ fs) = events_of fs
events_of (derived_complete t d ∷ fs) = events_of fs

events_of-append : (fs gs : List Frame) → events_of (fs ++ gs) ≡ events_of fs ++ events_of gs
events_of-append [] gs = refl
events_of-append (sent e ∷ fs) gs = ap (λ r. e ∷ r) (events_of-append fs gs)
events_of-append (retry_after n ∷ fs) gs = events_of-append fs gs
events_of-append (opened d c lo hi ∷ fs) gs = events_of-append fs gs
events_of-append (gap lo ∷ fs) gs = events_of-append fs gs
events_of-append (heartbeat ∷ fs) gs = events_of-append fs gs
events_of-append (derived_complete t d ∷ fs) gs = events_of-append fs gs

events_of-map : (es : List ResultEvent) → events_of (map sent es) ≡ es
events_of-map [] = refl
events_of-map (e ∷ es) = ap (λ r. e ∷ r) (events_of-map es)

module _ {R : Type 0} (g : Log R) (docs : Documented g) (x : Connection R) (all : List ResultEvent)
    (up : Increasing all) (kept : ℕ → ℕ)
    (whole : (n : ℕ) → g.entries (x.log n) ≡ take (kept n) all) where
  -- The events of the frames are the first ones behind a cursor.
  abbrev Sends : EntryId → Frames → Type 0
  Sends c f = IsPrefix (events_of f.0) (after_id c all)

  -- A read gives the first events behind its cursor.
  read_prefix :
      (c : EntryId) (n count : ℕ)
      → IsPrefix (take count (after_id c (g.entries (x.log n)))) (after_id c all)
  read_prefix c n count = take-IsPrefix count _ _ (
      subst (λ es. IsPrefix (after_id c es) (after_id c all)) (sym (whole n))
        (after-take-IsPrefix c (kept n) all))

  tail_prefix : (c : EntryId) (n : ℕ) → IsPrefix (tail g c x.batch (x.log n)) (after_id c all)
  unfolding tail
  tail_prefix c n =
      subst (λ es. IsPrefix es (after_id c all)) (sym (docs.xread_lem c x.batch (x.log n)))
        (read_prefix c n x.batch)

  -- Events of a read, and what is sent behind them.
  Sends-more :
      (c : EntryId) (es : List ResultEvent) (f : Frames)
      → IsPrefix es (after_id c all)
      → Sends (last_of c es) f
      → Sends c (prepend (map sent es) f)
  Sends-more c es f (rest, e) (rest', e') = (
    rest',
    ap (λ z. z ++ rest') (events_of-append (map sent es) f.0)
        ∙ (ap (λ z. (z ++ events_of f.0) ++ rest') (events_of-map es)
            ∙ (append_assoc es (events_of f.0) rest'
                ∙ (ap (λ z. es ++ z) (e' ∙ left_over c es rest all up e) ∙ e))),
  )

  Sends-none : (c : EntryId) (e : Ending) → Sends c ([], e)
  Sends-none c e = (after_id c all, refl)

  if-Sends :
      (c : EntryId) (b : Bool) (f h : Frames) → Sends c f → Sends c h → Sends c (if b then f else h)
  if-Sends c true f h p q = p
  if-Sends c false f h p q = q

  received-Sends :
      (next : EntryId → Frames) (n : ℕ) (c : EntryId) (es : List ResultEvent)
      → ((d : EntryId) → Sends d (next d))
      → IsPrefix es (after_id c all)
      → Sends c (received g x next n c es)
  received-Sends next n c [] k p =
      let told : Frames = (derived_complete (x.progress n).1 (x.progress n).0 ∷ [], closed) in
      if-Sends c (x.progress_fails n) ([], failed n)
        (if is_complete (x.progress n) then told else next c) (Sends-none c (failed n))
        (if-Sends c (is_complete (x.progress n)) told (next c) (after_id c all, refl) (k c))
  received-Sends next n c (e ∷ es) k p =
      let d = last_of c (e ∷ es) in
      Sends-more c (e ∷ es) (if completes (e ∷ es) then ([], closed) else next d) p
        (if-Sends d (completes (e ∷ es)) ([], closed) (next d) (Sends-none d closed) (k d))

  turn-Sends :
      (next : EntryId → Frames) (n : ℕ) (c : EntryId)
      → ((d : EntryId) → Sends d (next d))
      → Sends c (turn g x next n c)
  turn-Sends next n c k =
      let es = tail g c x.batch (x.log n) in
      let more = received g x next n c es in
      let alive = if x.fails n then ([], failed n) else more in
      if-Sends c (x.is_disconnected n) ([], client_gone n)
        (if x.is_over n then (gap (some c) ∷ [], max_duration n) else alive)
        (Sends-none c (client_gone n))
        (if-Sends c (x.is_over n) (gap (some c) ∷ [], max_duration n) alive (after_id c all, refl)
          (if-Sends c (x.fails n) ([], failed n) more (Sends-none c (failed n))
            (received-Sends next n c es k (tail_prefix c n))))

  loop-Sends : (fuel n : ℕ) (c : EntryId) → Sends c (loop g x fuel n c)
  unfolding loop
  loop-Sends zero n c = Sends-none c unfinished
  loop-Sends (suc fuel) n c = turn-Sends (loop g x fuel (suc n)) n c (loop-Sends fuel (suc n))

  module _ (positive : All (λ e. id_lt (0, 0) e.entry_id ≡ true) all) where
    start_behind :
        (cursor : Option EntryId) → from_start cursor all ≡ after_id (or_zero_id g x cursor) all
    start_behind none = sym (after_all (0, 0) all positive)
    start_behind (some c) = refl

    history_prefix :
        (cursor : Option EntryId)
        → IsPrefix (history g cursor x.history_limit (x.log 2)) (from_start cursor all)
    unfolding history
    history_prefix cursor =
        subst (λ es. IsPrefix es (from_start cursor all))
          (sym (docs.xrange_lem cursor x.history_limit (x.log 2))) (behind cursor)
      where
        behind :
            (cursor : Option EntryId)
            → IsPrefix
                (take x.history_limit (from_start cursor (g.entries (x.log 2))))
                (from_start cursor all)
        behind none = take-IsPrefix x.history_limit (g.entries (x.log 2)) all (
            subst (λ es. IsPrefix es all) (sym (whole 2))
              (take-IsPrefix (kept 2) all all ([], append-nil all)))
        behind (some c) = read_prefix c 2 x.history_limit

    replay-Sends :
        (fuel : ℕ) (cursor : Option EntryId)
        → Sends (or_zero_id g x cursor) (replay g x fuel cursor)
    replay-Sends fuel cursor =
        let c = or_zero_id g x cursor in
        let es = history g cursor x.history_limit (x.log 2) in
        let d = last_of c es in
        Sends-more c es (if completes es then ([], closed) else loop g x fuel 3 d)
          (subst (IsPrefix es) (start_behind cursor) (history_prefix cursor))
          (if-Sends d (completes es) ([], closed) (loop g x fuel 3 d) (Sends-none d closed)
            (loop-Sends fuel 3 d))

    body-Sends :
        (fuel : ℕ) (cursor : Option EntryId)
        → Sends
            (or_zero_id g x cursor)
            (if x.fails 2 then ([], failed 2) else replay g x fuel cursor)
    body-Sends fuel cursor =
        if-Sends (or_zero_id g x cursor) (x.fails 2) ([], failed 2) (replay g x fuel cursor)
          (Sends-none (or_zero_id g x cursor) (failed 2)) (replay-Sends fuel cursor)

    open_stream-Sends :
        (fuel : ℕ) (resync : Bool) (cursor : Option EntryId)
        → Sends (or_zero_id g x cursor) (open_stream g x fuel resync cursor)
    open_stream-Sends fuel true cursor = elim (Bool-cases (x.fails 1)) [
      | inl e ↦ rw e (Sends-none (or_zero_id g x cursor) (failed 1))
      | inr e ↦ rw e (body-Sends fuel cursor)
    ]
    open_stream-Sends fuel false cursor = elim (Bool-cases (x.fails 1)) [
      | inl e ↦ rw e (Sends-none (or_zero_id g x cursor) (failed 1))
      | inr e ↦ rw e (body-Sends fuel cursor)
    ]

    -- The cursor that a connection goes on from.
    abbrev pub resumed_from : Option EntryId → Option EntryId
    resumed_from none = none
    resumed_from (some c) = if gap_after g (x.log 0) c then none else some c

    resume-Sends :
        (fuel : ℕ) (cursor : Option EntryId)
        → Sends (or_zero_id g x (resumed_from cursor)) (resume g x fuel cursor)
    resume-Sends fuel none = open_stream-Sends fuel false none
    resume-Sends fuel (some c) = elim (Bool-cases (x.fails 0)) [
      | inl e ↦ rw e (Sends-none (or_zero_id g x (resumed_from (some c))) (failed 0))
      | inr e ↦ rw e (elim (Bool-cases (gap_after g (x.log 0) c)) [
        | inl missed ↦ rw missed (open_stream-Sends fuel true none)
        | inr whole_so_far ↦ rw whole_so_far (open_stream-Sends fuel false (some c))
      ])
    ]

    -- A subscriber gets the events behind its cursor in their order, each of them once and none left
    -- out up to the last that it gets, whether from the replay or from the tail, and whatever ends the
    -- connection. It starts over if a gap is found. Events come in rising order and none of them is
    -- trimmed while the connection lasts.
    pub frames_in_order :
        (fuel : ℕ) (cursor : Option EntryId)
        → IsPrefix (events_of (frames g x fuel cursor).0) (from_start (resumed_from cursor) all)
    unfolding frames
    frames_in_order fuel cursor =
        subst (IsPrefix (events_of (resume g x fuel cursor).0))
          (sym (start_behind (resumed_from cursor))) (resume-Sends fuel cursor)

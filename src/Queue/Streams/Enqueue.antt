-- ===== src/Queue/Streams/Enqueue.antt =====
-- What a job adds to the two lanes.
use ocr_orchestrator.Common.{ℕ, zero, suc, ◌+◌, ◌-◌, ap, ◌∙◌, min, ◌<◌, ◌≡◌, refl, arith, length}
use ocr_orchestrator.Queue.Tasks.{Value, Fields, Stream, lead, main, first_fields}
use ocr_orchestrator.Queue.Broker.{Broker, Documented, waiting}
use ocr_orchestrator.Queue.Streams.{
  Queue, page_lane, execute, add, pipeline, enqueue_commands, enqueue_pages, depth,
}
use ocr_orchestrator.Queue.Streams.Requeue.{status, status-add, new_id, is_stream_self}

page_lane-suc : (index : ℕ) → page_lane (suc index) ≡ main
page_lane-suc index = ground arith

add_zero : (n : ℕ) → n + zero ≡ n
add_zero n = omega arith

zero_add : (n : ℕ) → 0 + n ≡ n
zero_add n = omega arith

shift : (n k : ℕ) → n + suc k ≡ suc n + k
shift n k = omega arith

module _ {L : Type 0} (b : Broker L) (docs : Documented b) (job trace : Value) (now : ℕ) where
  added :
      (s : Stream) (f : Fields) (q : Queue L)
      → status b (execute b (add s f) q) s (new_id b docs s f q) ≡ waiting f
  added s f q =
      status-add b docs s f q s (new_id b docs s f q) ∙ rw (is_stream_self s) (ground arith)

  add_kept :
      (s : Stream) (g : Fields) (q : Queue L) (r : Stream) (i : ℕ) (f : Fields)
      → status b q r i ≡ waiting f
      → status b (execute b (add s g) q) r i ≡ waiting f
  add_kept lead g q lead i f h =
      ground (arith, docs.xadd_look g q.lead_lane i, docs.xadd_fresh g q.lead_lane)
  add_kept lead g q main i f h = h
  add_kept main g q lead i f h = h
  add_kept main g q main i f h =
      ground (arith, docs.xadd_look g q.main_lane i, docs.xadd_fresh g q.main_lane)

  -- The entries that a part of a job adds, and those that it leaves pending.
  record Added (more_lead more_main : ℕ) (q r : Queue L) : Type 0 where
    lead_len : b.xlen r.lead_lane ≡ b.xlen q.lead_lane + more_lead
    main_len : b.xlen r.main_lane ≡ b.xlen q.main_lane + more_main
    lead_pending : b.pending_count r.lead_lane ≡ b.pending_count q.lead_lane
    main_pending : b.pending_count r.main_lane ≡ b.pending_count q.main_lane

  enqueue_length : (index n : ℕ) → length (enqueue_commands job trace now index n) ≡ n
  unfolding enqueue_commands
  enqueue_length index zero = refl
  enqueue_length index (suc n) = ap suc (enqueue_length (suc index) n)

  later_pages :
      (index n : ℕ) (q : Queue L)
      → Added 0 n q (pipeline b n (enqueue_commands job trace now (suc index) n) q)
  unfolding enqueue_commands pipeline
  later_pages index zero q = omega arith
  later_pages index (suc n) q =
      let f = first_fields job trace now (suc index) in
      let rest = later_pages (suc index) n (execute b (add main f) q) in
      rw (page_lane-suc index)
        (omega (arith, rest, docs.xadd_len f q.main_lane, docs.xadd_pending f q.main_lane))

  all_pages :
      (total : ℕ) (q : Queue L)
      → Added
          (min total 1)
          (total - 1)
          q
          (pipeline b total (enqueue_commands job trace now 0 total) q)
  unfolding enqueue_commands pipeline
  all_pages zero q = omega arith
  all_pages (suc n) q =
      let f = first_fields job trace now 0 in
      let rest = later_pages 0 n (execute b (add lead f) q) in
      omega (arith, rest, docs.xadd_len f q.lead_lane, docs.xadd_pending f q.lead_lane)

  -- An entry that waits is not touched by further entries.
  waiting_kept :
      (index n : ℕ) (q : Queue L) (s : Stream) (i : ℕ) (f : Fields)
      → status b q s i ≡ waiting f
      → status b (pipeline b n (enqueue_commands job trace now index n) q) s i ≡ waiting f
  unfolding enqueue_commands pipeline
  waiting_kept index zero q s i f h = h
  waiting_kept index (suc n) q s i f h =
      waiting_kept (suc index) n _ s i f
        (add_kept (page_lane index) (first_fields job trace now index) q s i f h)

  pages_waiting :
      (index n k : ℕ) (q : Queue L)
      → k < n
      → (i : ℕ) × (status b
            (pipeline b n (enqueue_commands job trace now index n) q)
            (page_lane (index + k))
            i
          ≡ waiting (first_fields job trace now (index + k)))
  unfolding enqueue_commands pipeline
  pages_waiting index zero k q h = absurd (omega arith)
  pages_waiting index (suc n) zero q h =
      let f = first_fields job trace now index in
      let s = page_lane index in
      let i = new_id b docs s f q in
      (
        i,
        rw (add_zero index)
            (waiting_kept (suc index) n (execute b (add s f) q) s i f (added s f q)),
      )
  pages_waiting index (suc n) (suc k) q h = rw (shift index k) (
      pages_waiting (suc index) n k
        (execute b (add (page_lane index) (first_fields job trace now index)) q) (omega arith))

  -- A submitted job has an entry for each of its pages `k`: page 0 waits in the lead lane and every
  -- other one in the main lane, under the time of the call. Nothing else is added: the lead lane grows by
  -- one entry and the main lane by one for each further page, so that the length of the queue grows by
  -- the number of pages, and nothing more is pending.
  pub enqueue_pages_lem :
      (total k : ℕ) (q : Queue L)
      → k < total
      → let r = (enqueue_pages b job trace now total q).1 in
        ((i : ℕ) × (status b r (page_lane k) i ≡ waiting (first_fields job trace now k)))
        × (b.xlen r.lead_lane ≡ b.xlen q.lead_lane + 1)
        × (b.xlen r.main_lane ≡ b.xlen q.main_lane + (total - 1))
        × ((depth b r).stream_length ≡ (depth b q).stream_length + total)
        × ((depth b r).pending ≡ (depth b q).pending)
  unfolding enqueue_pages enqueue_commands pipeline depth
  enqueue_pages_lem total k q h =
      let all = all_pages total q in
      rw (enqueue_length 0 total) (
        rw (← zero_add k) (pages_waiting 0 total k q h),
        omega (arith, all),
        all.main_len,
        omega (arith, all),
        omega (arith, all),
      )

-- ===== src/Queue/Streams/Requeue.antt =====
-- What `ack` and `requeue` do to the entries, wherever they are cut short.
use mathlib.Core.Path.{subst}
use ocr_orchestrator.Common.{
  ℕ, zero, suc, ◌≡◌, ◌≢◌, refl, sym, ap, ◌∙◌, Bool, true, some, arith, ◌==◌, if◌then◌else◌,
}
use ocr_orchestrator.Queue.Tasks.{
  Value, number, Fields, Stream, lead, main, PageTask, get, retry_fields,
}
use ocr_orchestrator.Queue.Broker.{Broker, Documented, Status, waiting, held, after_ack, after_del}
use ocr_orchestrator.Queue.Streams.{
  Queue, lane, is_stream, add, acknowledge, delete, execute, pipeline, ack_commands, ack,
  requeue_commands, requeue,
}

-- The fields name a page.
abbrev pub Names : Fields → Value → ℕ → Type 0
Names f job page = (get "job_id" f ≡ some job) × (get "page_index" f ≡ some (number page))

-- An entry that a worker will get, or that one holds.
abbrev pub Carried : Status → Value → ℕ → Type 0
Carried (waiting f) job page = Names f job page
Carried (held f lease) job page = Names f job page
Carried _ job page = ⊥

abbrev pub settled : Status → Status
settled s = after_del (after_ack s)

module _ {L : Type 0} (b : Broker L) where
  -- The status of an entry of a stream.
  abbrev pub status : Queue L → Stream → ℕ → Status
  status q s i = b.look (lane s q) i

  abbrev pub Queued : Queue L → Value → ℕ → Type 0
  Queued q job page = (s : Stream) × (i : ℕ) × Carried (status q s i) job page

pub is_stream_self : (s : Stream) → is_stream s s ≡ true
is_stream_self lead = refl
is_stream_self main = refl

is_stream_sym : (s r : Stream) → is_stream s r ≡ true → is_stream r s ≡ true
is_stream_sym lead lead e = e
is_stream_sym main main e = e
is_stream_sym lead main e = e
is_stream_sym main lead e = e

module _ {L : Type 0} (b : Broker L) (docs : Documented b) where
  pub status-acknowledge :
      (s : Stream) (i : ℕ) (q : Queue L) (r : Stream) (j : ℕ)
      → status b (execute b (acknowledge s i) q) r j ≡ (
          if is_stream s r
          then (if i == j then after_ack (status b q r j) else status b q r j)
          else status b q r j)
  status-acknowledge lead i q lead j = docs.xack_look i q.lead_lane j
  status-acknowledge lead i q main j = refl
  status-acknowledge main i q lead j = refl
  status-acknowledge main i q main j = docs.xack_look i q.main_lane j

  pub status-delete :
      (s : Stream) (i : ℕ) (q : Queue L) (r : Stream) (j : ℕ)
      → status b (execute b (delete s i) q) r j ≡ (
          if is_stream s r
          then (if i == j then after_del (status b q r j) else status b q r j)
          else status b q r j)
  status-delete lead i q lead j = docs.xdel_look i q.lead_lane j
  status-delete lead i q main j = refl
  status-delete main i q lead j = refl
  status-delete main i q main j = docs.xdel_look i q.main_lane j

  abbrev pub new_id : Stream → Fields → Queue L → ℕ
  new_id s f q = (b.xadd f (lane s q)).0

  pub status-add :
      (s : Stream) (f : Fields) (q : Queue L) (r : Stream) (j : ℕ)
      → status b (execute b (add s f) q) r j ≡ (
          if is_stream s r
          then (if new_id s f q == j then waiting f else status b q r j)
          else status b q r j)
  status-add lead f q lead j = docs.xadd_look f q.lead_lane j
  status-add lead f q main j = refl
  status-add main f q lead j = refl
  status-add main f q main j = docs.xadd_look f q.main_lane j

  -- `ack` settles its entry and leaves every other one.
  pub status-ack :
      (s : Stream) (i : ℕ) (q : Queue L) (r : Stream) (j : ℕ)
      → status b (ack b s i q) r j ≡ (
          if is_stream s r
          then (if i == j then settled (status b q r j) else status b q r j)
          else status b q r j)
  unfolding pipeline
  status-ack s i q r j =
      ground
        (arith, status-acknowledge s i q r j, status-delete s i (execute b (acknowledge s i) q) r j)

  -- Settling one entry, cut short or not, leaves another.
  pub prefix-ack_other :
      (n : ℕ) (s : Stream) (i : ℕ) (q : Queue L) (r : Stream) (j : ℕ)
      → (is_stream s r ≡ true → i ≢ j)
      → status b (pipeline b n (ack_commands s i) q) r j ≡ status b q r j
  unfolding pipeline
  prefix-ack_other zero s i q r j h = refl
  prefix-ack_other (suc zero) s i q r j h = ground (arith, status-acknowledge s i q r j)
  prefix-ack_other (suc (suc zero)) s i q r j h =
      ground
        (arith, status-acknowledge s i q r j, status-delete s i (execute b (acknowledge s i) q) r j)
  prefix-ack_other (suc (suc (suc n))) s i q r j h =
      ground
        (arith, status-acknowledge s i q r j, status-delete s i (execute b (acknowledge s i) q) r j)

  -- A new entry is not one that carries a page.
  pub new_id-ne :
      (s : Stream) (i : ℕ) (f : Fields) (q : Queue L) (job : Value) (page : ℕ)
      → Carried (status b q s i) job page
      → is_stream s main ≡ true
      → i ≢ new_id main f q
  new_id-ne lead i f q job page h e p = cc
  new_id-ne main i f q job page h e p =
      subst (λ x. Carried x job page) (ap (b.look q.main_lane) p ∙ docs.xadd_fresh f q.main_lane) h

  module _ (counted : Bool) (now : ℕ) (t : PageTask) where
    abbrev pub replacement : Fields
    replacement = retry_fields counted now t

    abbrev pub published : Queue L → Queue L
    published q = execute b (add main replacement) q

    -- A requeue writes a new entry, settles the one of the task, and leaves every other one.
    pub status-requeue :
        (q : Queue L) (r : Stream) (j : ℕ)
        → status b (requeue b counted now t q) r j ≡ (
            if is_stream t.stream r
            then (if t.entry_id == j
                then settled (status b (published q) r j)
                else status b (published q) r j)
            else status b (published q) r j)
    unfolding pipeline
    status-requeue q r j = status-ack t.stream t.entry_id (published q) r j

    published_other :
        (q : Queue L) (r : Stream) (j : ℕ)
        → (is_stream main r ≡ true → new_id main replacement q ≢ j)
        → status b (published q) r j ≡ status b q r j
    published_other q r j h = ground (arith, status-add main replacement q r j)

    -- A pipeline that is cut short has published nothing, or the replacement is waiting for a worker.
    pub new_entry :
        (n : ℕ) (q : Queue L)
        → (job : Value) (page : ℕ) → Carried (status b q t.stream t.entry_id) job page
        → status b
            (pipeline b (suc n) (requeue_commands counted now t) q)
            main
            (new_id main replacement q)
          ≡ waiting replacement
    unfolding pipeline
    new_entry n q job page h =
        prefix-ack_other n t.stream t.entry_id (published q) main (new_id main replacement q)
          (new_id-ne t.stream t.entry_id replacement q job page h)
        ∙ (status-add main replacement q main (new_id main replacement q) ∙ ground arith)

    -- `requeue`, cut short after any number of its commands, does not lose a page: an entry of the page
    -- is still waiting for a worker or held by one.
    pub requeue_keeps :
        (reached : ℕ) (q : Queue L)
        → Carried (status b q t.stream t.entry_id) t.job_id t.page_index
        → Queued b (pipeline b reached (requeue_commands counted now t) q) t.job_id t.page_index
    unfolding pipeline
    requeue_keeps zero q h = (t.stream, t.entry_id, h)
    requeue_keeps (suc n) q h =
        let e = new_entry n q t.job_id t.page_index h in
        (
          main,
          new_id main replacement q,
          subst (λ s. Carried s t.job_id t.page_index) (sym e) (refl, refl),
        )

    -- A requeue that runs to its end leaves a waiting entry with the replacement, settles the entry of
    -- the task, and changes no other entry.
    pub requeue_lem :
        (q : Queue L)
        → Carried (status b q t.stream t.entry_id) t.job_id t.page_index
        → (status b (requeue b counted now t q) main (new_id main replacement q)
            ≡ waiting replacement)
          × (status b (requeue b counted now t q) t.stream t.entry_id
              ≡ settled (status b q t.stream t.entry_id))
          × ((r : Stream) (j : ℕ)
              → (is_stream t.stream r ≡ true → t.entry_id ≢ j)
              → (is_stream main r ≡ true → new_id main replacement q ≢ j)
              → status b (requeue b counted now t q) r j ≡ status b q r j)
    requeue_lem q h = (
      new_entry 2 q t.job_id t.page_index h,
      ground (
        arith,
        status-requeue q t.stream t.entry_id,
        is_stream_self t.stream,
        published_other q t.stream t.entry_id (λ e p.
            new_id-ne t.stream t.entry_id replacement q t.job_id t.page_index h
              (is_stream_sym main t.stream e) (sym p)),
      ),
      λ r j own new. ground (arith, status-requeue q r j, published_other q r j new),
    )

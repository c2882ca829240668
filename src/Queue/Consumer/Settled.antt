-- ===== src/Queue/Consumer/Settled.antt =====
-- The entries of a reply that cannot be read are settled.
use mathlib.Core.Path.{subst}
use ocr_orchestrator.Common.{
  some, get_elem?, All-get_elem?, All-map, ℕ, ◌≡◌, refl, sym, ◌∙◌, Bool, true, false, List, [], ◌∷◌,
  All, arith, ◌==◌, if◌then◌else◌,
}
use ocr_orchestrator.Queue.Tasks.{
  Fields, Stream, PageTask, ParseError, Parsed, parsed, malformed, parse,
}
use ocr_orchestrator.Queue.Broker.{Broker, Documented, Entry, Status, absent, held}
use ocr_orchestrator.Queue.Streams.{
  Queue, Env, is_stream, poison_fields, quarantine, sort_entry, flatten_lane, flatten_all, flatten,
}
use ocr_orchestrator.Queue.Streams.Requeue.{status, status-ack, settled, is_stream_self}
use ocr_orchestrator.Queue.Consumer.{Answer}
use ocr_orchestrator.Queue.Consumer.Quarantine.{audited, status-audited}

abbrev pub IsMalformed : Parsed PageTask → Type 0
IsMalformed (parsed t) = ⊥
IsMalformed (malformed e) = Unit

-- An entry that a reply brings is held; a second delivery of it may find it settled.
abbrev pub Delivered : Status → Type 0
Delivered absent = Unit
Delivered (held f lease) = Unit
Delivered _ = ⊥

settled_gone : (s : Status) → Delivered s → settled s ≡ absent
settled_gone absent h = refl
settled_gone (held f lease) h = refl
settled_gone (Status.waiting f) h = absurd h
settled_gone (Status.acked f) h = absurd h
settled_gone (Status.tombstone l) h = absurd h

module _ {L : Type 0} (b : Broker L) (docs : Documented b) (v : Env L) where
  status-quarantine :
      (s : Stream) (i : ℕ) (f : Fields) (e : ParseError) (q : Queue L) (r : Stream) (j : ℕ)
      → status b (quarantine b v s i f e q) r j ≡ (
          if is_stream s r
          then (if i == j then settled (status b q r j) else status b q r j)
          else status b q r j)
  status-quarantine s i f e q r j =
      let p = poison_fields s i f (v.describe e) in
      status-ack b docs s i (audited b (v.written i) p q) r j
      ∙ rw (status-audited b (v.written i) p q r j)

  -- What stays true of an entry while other ones are quarantined, or itself.
  abbrev Stays : (Status → Type 0) → Type 0
  Stays P = (s : Status) → P s → P (settled s)

  sort_entry-Stays :
      (P : Status → Type 0)
      → Stays P
      → (s : Stream) (i : ℕ) (f : Fields) (p : Parsed PageTask) (x : List PageTask × Queue L)
        (r : Stream) (j : ℕ)
      → P (status b x.1 r j)
      → P (status b (sort_entry b v s i f p x).1 r j)
  sort_entry-Stays P k s i f (parsed t) (ts, q) r j h = h
  sort_entry-Stays P k s i f (malformed e) (ts, q) r j h =
      subst P (sym (status-quarantine s i f e q r j)) (either (is_stream s r) (i == j))
    where
      either :
          (c d : Bool)
          → P (
              if c
              then (if d then settled (status b q r j) else status b q r j)
              else status b q r j)
      either true true = k (status b q r j) h
      either true false = h
      either false d = h

  flatten_lane-Stays :
      (P : Status → Type 0)
      → Stays P
      → (s : Stream) (es : List Entry) (x : List PageTask × Queue L) (r : Stream) (j : ℕ)
      → P (status b x.1 r j)
      → P (status b (flatten_lane b v s es x).1 r j)
  unfolding flatten_lane
  flatten_lane-Stays P k s [] x r j h = h
  flatten_lane-Stays P k s ((i, f) ∷ es) x r j h =
      flatten_lane-Stays P k s es _ r j (sort_entry-Stays P k s i f (parse s i f) x r j h)

  flatten_all-Stays :
      (P : Status → Type 0)
      → Stays P
      → (reply : Answer) (x : List PageTask × Queue L) (r : Stream) (j : ℕ) → P (status b x.1 r j)
      → P (status b (flatten_all b v reply x).1 r j)
  unfolding flatten_all
  flatten_all-Stays P k [] x r j h = h
  flatten_all-Stays P k ((s, es) ∷ more) x r j h =
      flatten_all-Stays P k more _ r j (flatten_lane-Stays P k s es x r j h)

  absent-Stays : Stays (λ s. s ≡ absent)
  absent-Stays s h = rw h

  Delivered-Stays : Stays Delivered
  Delivered-Stays s h = subst Delivered (sym (settled_gone s h)) tt

  quarantined :
      (s : Stream) (i : ℕ) (f : Fields) (p : Parsed PageTask) (x : List PageTask × Queue L)
      → IsMalformed p
      → Delivered (status b x.1 s i)
      → status b (sort_entry b v s i f p x).1 s i ≡ absent
  quarantined s i f (parsed t) x m h = absurd m
  quarantined s i f (malformed e) (ts, q) m h =
      ground
        (arith, status-quarantine s i f e q s i, is_stream_self s, settled_gone (status b q s i) h)

  -- Of each entry of a stream that is malformed and was delivered: it is gone.
  abbrev Settles : Queue L → Queue L → Stream → Entry → Type 0
  Settles q r s e =
      IsMalformed (parse s e.0 e.1) → Delivered (status b q s e.0) → status b r s e.0 ≡ absent

  Settles-lane :
      (s : Stream) (es : List Entry) (x : List PageTask × Queue L)
      → All (Settles x.1 (flatten_lane b v s es x).1 s) es
  unfolding flatten_lane
  Settles-lane s [] x = tt
  Settles-lane s ((i, f) ∷ es) x =
      let y = sort_entry b v s i f (parse s i f) x in
      (
        λ m h.
            flatten_lane-Stays (λ t. t ≡ absent) absent-Stays s es y s i
              (quarantined s i f (parse s i f) x m h),
        All-map _ _
            (λ e k m h.
              k m (sort_entry-Stays Delivered Delivered-Stays s i f (parse s i f) x s e.0 h))
            es (Settles-lane s es y),
      )

  reply-Settles :
      (r : Answer) (x : List PageTask × Queue L)
      → All (λ l. All (Settles x.1 (flatten_all b v r x).1 l.0) l.1) r
  unfolding flatten_all
  reply-Settles [] x = tt
  reply-Settles ((s, es) ∷ more) x =
      let y = flatten_lane b v s es x in
      (
        All-map _ _
            (λ e k m h. flatten_all-Stays (λ t. t ≡ absent) absent-Stays more y s e.0 (k m h)) es
            (Settles-lane s es x),
        All-map _ _
            (λ l hs.
              All-map _ _
                (λ e k m h. k m (flatten_lane-Stays Delivered Delivered-Stays s es x l.0 e.0 h)) l.1
                hs)
            more (reply-Settles more y),
      )

  -- A malformed entry of a reply that was delivered is settled at the end of the read, however far its
  -- quarantine gets: it is neither pending nor in its stream.
  pub flatten_settles :
      (r : Answer) (q : Queue L) (m n : ℕ) (s : Stream) (es : List Entry) (i : ℕ) (f : Fields)
      → get_elem? r m ≡ some (s, es)
      → get_elem? es n ≡ some (i, f)
      → IsMalformed (parse s i f)
      → Delivered (status b q s i)
      → status b (flatten b v r q).1 s i ≡ absent
  flatten_settles r q m n s es i f at_m at_n bad h =
      let lane_settles = All-get_elem? _ r m at_m (reply-Settles r ([], q)) in
      All-get_elem? _ es n at_n lane_settles bad h

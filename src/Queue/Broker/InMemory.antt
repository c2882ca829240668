-- ===== src/Queue/Broker/InMemory.antt =====
-- Streams in memory: a stream is the list of the statuses of its ids. They meet what is documented
-- of the commands. Each read delivers one entry at most.
use package.text.Mathlib.Text.{◌==◌ as str_eq}
use ocr_orchestrator.Common.{
  ℕ, zero, suc, ◌+◌, ◌≡◌, refl, ap, ◌∙◌, ◌&&◌, none, List, [], ◌∷◌, ◌++◌, String, arith, ◌==◌,
  if◌then◌else◌, length, Bool-cases, inl, inr,
}
use ocr_orchestrator.Queue.Tasks.{Fields}
use ocr_orchestrator.Queue.Broker.{
  Status, absent, waiting, held, acked, tombstone, Row, Entry, Broker, after_ack, after_del,
  after_claim, after_delivery, has_id, is_idle,
}

abbrev pub Lane : Type 0
Lane = List Status

abbrev pub look : Lane → ℕ → Status
look [] i = absent
look (s ∷ l) zero = s
look (s ∷ l) (suc i) = look l i

abbrev pub in_stream : Status → ℕ
in_stream (waiting f) = 1
in_stream (held f lease) = 1
in_stream (acked f) = 1
in_stream _ = 0

abbrev pub is_pending : Status → ℕ
is_pending (held f lease) = 1
is_pending (tombstone lease) = 1
is_pending _ = 0

abbrev pub sum_of : (Status → ℕ) → Lane → ℕ
sum_of g [] = 0
sum_of g (s ∷ l) = g s + sum_of g l

-- `f` at the id `i`.
abbrev pub update : (Status → Status) → ℕ → Lane → Lane
update f i [] = []
update f zero (s ∷ l) = f s ∷ l
update f (suc i) (s ∷ l) = s ∷ update f i l

-- `f` at each of the ids, of a lane that starts with the id `base`.
abbrev pub update_all : (Status → Status) → List ℕ → ℕ → Lane → Lane
update_all f ids base [] = []
update_all f ids base (s ∷ l) = (if has_id base ids then f s else s) ∷ update_all f ids (suc base) l

-- The first entry that waits.
abbrev pub first_waiting : ℕ → Lane → List Entry
first_waiting base [] = []
first_waiting base (waiting f ∷ l) = (base, f) ∷ []
first_waiting base (absent ∷ l) = first_waiting (suc base) l
first_waiting base (held f lease ∷ l) = first_waiting (suc base) l
first_waiting base (acked f ∷ l) = first_waiting (suc base) l
first_waiting base (tombstone lease ∷ l) = first_waiting (suc base) l

abbrev pub deliver : (consumer : String) (now : ℕ) → List Entry → Lane → Lane
deliver c now [] l = l
deliver c now ((i, f) ∷ es) l = update (after_delivery c now) i l

abbrev pub first_own : String → ℕ → Lane → List Entry
first_own c base [] = []
first_own c base (held f lease ∷ l) =
    if str_eq lease.consumer c then (base, f) ∷ [] else first_own c (suc base) l
first_own c base (absent ∷ l) = first_own c (suc base) l
first_own c base (waiting f ∷ l) = first_own c (suc base) l
first_own c base (acked f ∷ l) = first_own c (suc base) l
first_own c base (tombstone lease ∷ l) = first_own c (suc base) l

abbrev pub idle_rows : (idle now base : ℕ) → Lane → List Row
idle_rows idle now base [] = []
idle_rows idle now base (held f lease ∷ l) =
    let rest = idle_rows idle now (suc base) l in
    if is_idle idle now lease
    then record { message_id = base; consumer = lease.consumer } ∷ rest
    else rest
idle_rows idle now base (absent ∷ l) = idle_rows idle now (suc base) l
idle_rows idle now base (waiting f ∷ l) = idle_rows idle now (suc base) l
idle_rows idle now base (acked f ∷ l) = idle_rows idle now (suc base) l
idle_rows idle now base (tombstone lease ∷ l) = idle_rows idle now (suc base) l

abbrev pub claimed : (ids : List ℕ) (idle now base : ℕ) → Lane → List Entry
claimed ids idle now base [] = []
claimed ids idle now base (held f lease ∷ l) =
    let rest = claimed ids idle now (suc base) l in
    if has_id base ids && is_idle idle now lease then (base, f) ∷ rest else rest
claimed ids idle now base (absent ∷ l) = claimed ids idle now (suc base) l
claimed ids idle now base (waiting f ∷ l) = claimed ids idle now (suc base) l
claimed ids idle now base (acked f ∷ l) = claimed ids idle now (suc base) l
claimed ids idle now base (tombstone lease ∷ l) = claimed ids idle now (suc base) l

abbrev pub in_memory : Broker Lane
in_memory = record {
  look = look;
  xlen = sum_of in_stream;
  pending_count = sum_of is_pending;
  xadd = λ f l. (length l, l ++ (waiting f ∷ []));
  xadd_capped = λ n f l. l ++ (waiting f ∷ []);
  xgroup_create = λ l. none;
  xack = update after_ack;
  xdel = update after_del;
  read_new = λ c n now l. (first_waiting 0 l, deliver c now (first_waiting 0 l) l);
  read_own = λ c n now l. (first_own c 0 l, l);
  xpending_range = λ idle n now l. idle_rows idle now 0 l;
  xclaim =
      λ c idle now ids l. (claimed ids idle now 0 l, update_all (after_claim c idle now 1) ids 0 l);
  xclaim_just_id = λ c idle now ids l. ([], update_all (after_claim c idle now 0) ids 0 l);
}

pub look-length : (l : Lane) → look l (length l) ≡ absent
look-length [] = refl
look-length (s ∷ l) = look-length l

pub look-append :
    (f : Fields) (l : Lane) (i : ℕ)
    → look (l ++ (waiting f ∷ [])) i ≡ (if length l == i then waiting f else look l i)
look-append f [] zero = refl
look-append f [] (suc i) = ground arith
look-append f (s ∷ l) zero = ground arith
look-append f (s ∷ l) (suc i) = look-append f l i ∙ ground arith

pub sum_of-append :
    (g : Status → ℕ) (s : Status) (l : Lane) → sum_of g (l ++ (s ∷ [])) ≡ sum_of g l + g s
sum_of-append g s [] = omega arith
sum_of-append g s (x ∷ l) = omega (arith, sum_of-append g s l)

pub look-update :
    (f : Status → Status) (i : ℕ) (l : Lane) (j : ℕ)
    → f absent ≡ absent
    → look (update f i l) j ≡ (if i == j then f (look l j) else look l j)
look-update f i [] j h = ground (arith, h)
look-update f zero (s ∷ l) zero h = refl
look-update f zero (s ∷ l) (suc j) h = ground arith
look-update f (suc i) (s ∷ l) zero h = ground arith
look-update f (suc i) (s ∷ l) (suc j) h = look-update f i l j h ∙ ground arith

pub look-update_all :
    (f : Status → Status) (ids : List ℕ) (base : ℕ) (l : Lane) (i : ℕ)
    → f absent ≡ absent
    → look (update_all f ids base l) i ≡ (if has_id (base + i) ids then f (look l i) else look l i)
look-update_all f ids base [] i h = elim (Bool-cases (has_id (base + i) ids)) [
  | inl e ↦ rw (e, h) refl
  | inr e ↦ rw e refl
]
look-update_all f ids base (s ∷ l) zero h = ap (λ n. if has_id n ids then f s else s) (omega arith)
look-update_all f ids base (s ∷ l) (suc i) h =
    look-update_all f ids (suc base) l i h
    ∙ ap (λ n. if has_id n ids then f (look l i) else look l i) (omega arith)

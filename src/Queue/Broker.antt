-- ===== src/Queue/Broker.antt =====
-- The commands of Redis Streams that app/queue/streams.py sends, on one stream with its consumer
-- group: an interface, and what Redis documents of each command. Redis is not part of the
-- repository, so that every theorem on the queue takes a broker and these laws as parameters.
pub mod InMemory
pub mod Meets
use ocr_orchestrator.Common.{
  ℕ, suc, ◌+◌, ◌-◌, ◌≤◌, ◌<◌, ◌≡◌, Bool, true, false, Option, List, [], ◌∷◌, String, leb, ◌==◌,
  if◌then◌else◌, length, All,
}
use ocr_orchestrator.Queue.Tasks.{Fields}

-- A row of the pending entries list: who holds the entry, and since when.
pub record Lease : Type 0 where
  pub consumer : String
  pub delivered_at : ℕ
  pub deliveries : ℕ

-- What a stream and its group know of an entry id. `acked` is an entry that was acknowledged and not
-- deleted, `tombstone` a pending one that was deleted.
pub data Status : Type 0 where
  absent : Status
  waiting : Fields → Status
  held : Fields → Lease → Status
  acked : Fields → Status
  tombstone : Lease → Status

pub record Row : Type 0 where
  pub message_id : ℕ
  pub consumer : String

abbrev pub Entry : Type 0
Entry = ℕ × Fields

-- The commands on a stream `L`. `now` is the server's clock.
pub record Broker (L : Type 0) : Type 0 where
  -- What is known of an id, `XLEN` and the count of `XPENDING`.
  pub look : L → ℕ → Status
  pub xlen : L → ℕ
  pub pending_count : L → ℕ
  pub xadd : Fields → L → ℕ × L
  -- `XADD` with an approximate MAXLEN, on a stream that has no group.
  pub xadd_capped : (maxlen : ℕ) → Fields → L → L
  -- `XGROUP CREATE` with MKSTREAM; `none` is BUSYGROUP.
  pub xgroup_create : L → Option L
  pub xack : ℕ → L → L
  pub xdel : ℕ → L → L
  -- `XREADGROUP` with ">" and with "0", not blocking.
  pub read_new : (consumer : String) (count now : ℕ) → L → List Entry × L
  pub read_own : (consumer : String) (count now : ℕ) → L → List Entry × L
  -- `XPENDING` with IDLE, and `XCLAIM` without and with JUSTID.
  pub xpending_range : (idle count now : ℕ) → L → List Row
  pub xclaim : (consumer : String) (idle now : ℕ) → List ℕ → L → List Entry × L
  pub xclaim_just_id : (consumer : String) (idle now : ℕ) → List ℕ → L → List ℕ × L

abbrev pub after_ack : Status → Status
after_ack (held f lease) = acked f
after_ack (tombstone lease) = absent
after_ack other = other

abbrev pub after_del : Status → Status
after_del (waiting f) = absent
after_del (acked f) = absent
after_del (held f lease) = tombstone lease
after_del other = other

abbrev pub has_id : ℕ → List ℕ → Bool
has_id i [] = false
has_id i (j ∷ ids) = if j == i then true else has_id i ids

abbrev pub ids_of : List Entry → List ℕ
ids_of [] = []
ids_of ((i, f) ∷ more) = i ∷ ids_of more

abbrev pub is_idle : (idle now : ℕ) → Lease → Bool
is_idle idle now lease = leb idle (now - lease.delivered_at)

-- A claim moves the entries that are still that idle, and drops a tombstone.
abbrev pub after_claim : (consumer : String) (idle now step : ℕ) → Status → Status
after_claim consumer idle now step (held f lease) =
    if is_idle idle now lease
    then held f
        (record { consumer = consumer; delivered_at = now; deliveries = lease.deliveries + step })
    else held f lease
after_claim consumer idle now step (tombstone lease) = absent
after_claim consumer idle now step other = other

abbrev pub Claimable : (idle now : ℕ) → Status → Type 0
Claimable idle now (held f lease) = is_idle idle now lease ≡ true
Claimable idle now _ = ⊥

-- A delivery of a waiting entry.
abbrev pub after_delivery : (consumer : String) (now : ℕ) → Status → Status
after_delivery consumer now (waiting f) =
    held f (record { consumer = consumer; delivered_at = now; deliveries = 1 })
after_delivery consumer now other = other

abbrev pub Listed : (idle now : ℕ) → Row → Status → Type 0
Listed idle now r (held f lease) = (lease.consumer ≡ r.consumer) × (is_idle idle now lease ≡ true)
Listed idle now r (tombstone lease) =
    (lease.consumer ≡ r.consumer) × (is_idle idle now lease ≡ true)
Listed idle now r _ = ⊥

-- What is documented of the commands.
pub record Documented {L : Type 0} (b : Broker L) : Type 0 where
  -- A new entry has an id that was never used.
  pub xadd_fresh : (f : Fields) (l : L) → b.look l (b.xadd f l).0 ≡ absent
  pub xadd_look :
      (f : Fields) (l : L) (i : ℕ)
      → b.look (b.xadd f l).1 i ≡ (if (b.xadd f l).0 == i then waiting f else b.look l i)
  pub xadd_len : (f : Fields) (l : L) → b.xlen (b.xadd f l).1 ≡ suc (b.xlen l)
  pub xadd_pending : (f : Fields) (l : L) → b.pending_count (b.xadd f l).1 ≡ b.pending_count l
  pub xack_look :
      (i : ℕ) (l : L) (j : ℕ)
      → b.look (b.xack i l) j ≡ (if i == j then after_ack (b.look l j) else b.look l j)
  pub xdel_look :
      (i : ℕ) (l : L) (j : ℕ)
      → b.look (b.xdel i l) j ≡ (if i == j then after_del (b.look l j) else b.look l j)
  -- COUNT bounds the reply of one stream. A delivered entry was waiting, and is held then.
  pub read_new_count :
      (c : String) (n now : ℕ) (l : L) → 0 < n → length (b.read_new c n now l).0 ≤ n
  pub read_new_reply :
      (c : String) (n now : ℕ) (l : L)
      → All (λ e. b.look l e.0 ≡ waiting e.1) (b.read_new c n now l).0
  pub read_new_look :
      (c : String) (n now : ℕ) (l : L) (i : ℕ)
      → b.look (b.read_new c n now l).1 i ≡ (
          if has_id i (ids_of (b.read_new c n now l).0)
          then after_delivery c now (b.look l i)
          else b.look l i)
  pub read_own_count :
      (c : String) (n now : ℕ) (l : L) → 0 < n → length (b.read_own c n now l).0 ≤ n
  -- The reply of a claim is the entries it moved.
  pub xclaim_look :
      (c : String) (idle now : ℕ) (ids : List ℕ) (l : L) (i : ℕ)
      → b.look (b.xclaim c idle now ids l).1 i
        ≡ (if has_id i ids then after_claim c idle now 1 (b.look l i) else b.look l i)
  pub xclaim_reply :
      (c : String) (idle now : ℕ) (ids : List ℕ) (l : L) (i : ℕ)
      → has_id i (ids_of (b.xclaim c idle now ids l).0) ≡ true
      → (has_id i ids ≡ true) × Claimable idle now (b.look l i)
  pub just_id_look :
      (c : String) (idle now : ℕ) (ids : List ℕ) (l : L) (i : ℕ)
      → b.look (b.xclaim_just_id c idle now ids l).1 i
        ≡ (if has_id i ids then after_claim c idle now 0 (b.look l i) else b.look l i)
  -- A row of the pending list tells who holds the entry, for which long enough nothing was heard.
  pub xpending_rows :
      (idle n now : ℕ) (l : L)
      → All (λ r. Listed idle now r (b.look l r.message_id)) (b.xpending_range idle n now l)

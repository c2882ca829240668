-- ===== src/Queue/Broker/Meets.antt =====
-- The streams in memory meet what is documented of Redis Streams.
use mathlib.Core.Path.{subst}
use ocr_orchestrator.Common.{
  ℕ, suc, ◌+◌, ◌≤◌, ◌≡◌, refl, ap, ◌∙◌, true, ◌&&◌, List, [], ◌∷◌, String, arith, All, All-map,
  ◌==◌, if◌then◌else◌, length, Bool-cases, inl, inr,
}
use ocr_orchestrator.Queue.Broker.{
  Status, absent, waiting, held, acked, tombstone, Entry, Documented, after_ack, after_del,
  after_claim, after_delivery, has_id, ids_of, is_idle, Claimable, Listed,
}
use ocr_orchestrator.Queue.Broker.InMemory.{
  Lane, look, in_stream, is_pending, first_waiting, deliver, first_own, idle_rows, claimed,
  in_memory, look-length, look-append, sum_of-append, look-update, look-update_all,
}

-- The entry `base + i` of a list that starts at `base`.
At : (Status → Type 0) → (base : ℕ) → Lane → ℕ → Type 0
At P base l j = (i : ℕ) × (base + i ≡ j) × P (look l i)

At-next :
    (P : Status → Type 0) (base : ℕ) (s : Status) (l : Lane) (j : ℕ)
    → At P (suc base) l j
    → At P base (s ∷ l) j
unfolding At
At-next P base s l j (i, e, p) = (suc i, omega (arith, e), p)

At-here : (P : Status → Type 0) (base : ℕ) (s : Status) (l : Lane) → P s → At P base (s ∷ l) base
unfolding At
At-here P base s l p = (0, omega arith, p)

At-zero : (P : Status → Type 0) (l : Lane) (j : ℕ) → At P 0 l j → P (look l j)
unfolding At
At-zero P l j (i, e, p) = subst (λ k. P (look l k)) (omega (arith, e)) p

first_waiting-At :
    (base : ℕ) (l : Lane) → All (λ e. At (λ s. s ≡ waiting e.1) base l e.0) (first_waiting base l)
first_waiting-At base [] = tt
first_waiting-At base (waiting f ∷ l) = (At-here (λ s. s ≡ waiting f) base (waiting f) l refl, tt)
first_waiting-At base (absent ∷ l) =
    All-map _ _ (λ e. At-next (λ s. s ≡ waiting e.1) base absent l e.0) _
      (first_waiting-At (suc base) l)
first_waiting-At base (held f lease ∷ l) =
    All-map _ _ (λ e. At-next (λ s. s ≡ waiting e.1) base (held f lease) l e.0) _
      (first_waiting-At (suc base) l)
first_waiting-At base (acked f ∷ l) =
    All-map _ _ (λ e. At-next (λ s. s ≡ waiting e.1) base (acked f) l e.0) _
      (first_waiting-At (suc base) l)
first_waiting-At base (tombstone lease ∷ l) =
    All-map _ _ (λ e. At-next (λ s. s ≡ waiting e.1) base (tombstone lease) l e.0) _
      (first_waiting-At (suc base) l)

first_waiting_count : (base : ℕ) (l : Lane) → length (first_waiting base l) ≤ 1
first_waiting_count base [] = omega arith
first_waiting_count base (waiting f ∷ l) = omega arith
first_waiting_count base (absent ∷ l) = first_waiting_count (suc base) l
first_waiting_count base (held f lease ∷ l) = first_waiting_count (suc base) l
first_waiting_count base (acked f ∷ l) = first_waiting_count (suc base) l
first_waiting_count base (tombstone lease ∷ l) = first_waiting_count (suc base) l

first_own_count : (c : String) (base : ℕ) (l : Lane) → length (first_own c base l) ≤ 1
first_own_count c base [] = omega arith
first_own_count c base (held f lease ∷ l) = ground (arith, first_own_count c (suc base) l)
first_own_count c base (waiting f ∷ l) = first_own_count c (suc base) l
first_own_count c base (absent ∷ l) = first_own_count c (suc base) l
first_own_count c base (acked f ∷ l) = first_own_count c (suc base) l
first_own_count c base (tombstone lease ∷ l) = first_own_count c (suc base) l

look-deliver :
    (c : String) (now : ℕ) (es : List Entry) (l : Lane) (i : ℕ)
    → length es ≤ 1
    → look (deliver c now es l) i
      ≡ (if has_id i (ids_of es) then after_delivery c now (look l i) else look l i)
look-deliver c now [] l i h = refl
look-deliver c now ((j, f) ∷ []) l i h =
    ground (arith, look-update (after_delivery c now) j l i refl)
look-deliver c now ((j, f) ∷ e ∷ es) l i h = absurd (omega arith)

idle_rows-At :
    (idle now base : ℕ) (l : Lane)
    → All (λ r. At (Listed idle now r) base l r.message_id) (idle_rows idle now base l)
idle_rows-At idle now base [] = tt
idle_rows-At idle now base (held f lease ∷ l) = elim (Bool-cases (is_idle idle now lease)) [
  | inl e ↦ rw e (
    At-here (Listed idle now (record { message_id = base; consumer = lease.consumer })) base
        (held f lease) l (refl, e),
    All-map _ _ (λ r. At-next (Listed idle now r) base (held f lease) l r.message_id) _
        (idle_rows-At idle now (suc base) l),
  )
  | inr e ↦ rw e (
      All-map _ _ (λ r. At-next (Listed idle now r) base (held f lease) l r.message_id) _
        (idle_rows-At idle now (suc base) l))
]
idle_rows-At idle now base (absent ∷ l) =
    All-map _ _ (λ r. At-next (Listed idle now r) base absent l r.message_id) _
      (idle_rows-At idle now (suc base) l)
idle_rows-At idle now base (waiting f ∷ l) =
    All-map _ _ (λ r. At-next (Listed idle now r) base (waiting f) l r.message_id) _
      (idle_rows-At idle now (suc base) l)
idle_rows-At idle now base (acked f ∷ l) =
    All-map _ _ (λ r. At-next (Listed idle now r) base (acked f) l r.message_id) _
      (idle_rows-At idle now (suc base) l)
idle_rows-At idle now base (tombstone lease ∷ l) =
    All-map _ _ (λ r. At-next (Listed idle now r) base (tombstone lease) l r.message_id) _
      (idle_rows-At idle now (suc base) l)

-- An id of a reply of a claim.
claimed-At :
    (ids : List ℕ) (idle now base : ℕ) (l : Lane) (j : ℕ)
    → has_id j (ids_of (claimed ids idle now base l)) ≡ true
    → (has_id j ids ≡ true) × At (Claimable idle now) base l j
claimed-At ids idle now base [] j h = absurd (ground arith)
claimed-At ids idle now base (held f lease ∷ l) j h =
    elim (Bool-cases (has_id base ids && is_idle idle now lease)) [
      | inl e ↦
          let h' : has_id j (base ∷ ids_of (claimed ids idle now (suc base) l)) ≡ true =
            rw e at h in
          elim (Bool-cases (base == j)) [
            | inl same ↦
                let here : base ≡ j = ground arith in
                (
                  subst (λ k. has_id k ids ≡ true) here (ground arith),
                  subst (At (Claimable idle now) base (held f lease ∷ l)) here
                      (At-here (Claimable idle now) base (held f lease) l (ground arith)),
                )
            | inr other ↦
                let r = claimed-At ids idle now (suc base) l j (rw other at h') in
                (r.0, At-next (Claimable idle now) base (held f lease) l j r.1)
          ]
      | inr e ↦
          let r = claimed-At ids idle now (suc base) l j (rw e at h) in
          (r.0, At-next (Claimable idle now) base (held f lease) l j r.1)
    ]
claimed-At ids idle now base (absent ∷ l) j h =
    let r = claimed-At ids idle now (suc base) l j h in
    (r.0, At-next (Claimable idle now) base absent l j r.1)
claimed-At ids idle now base (waiting f ∷ l) j h =
    let r = claimed-At ids idle now (suc base) l j h in
    (r.0, At-next (Claimable idle now) base (waiting f) l j r.1)
claimed-At ids idle now base (acked f ∷ l) j h =
    let r = claimed-At ids idle now (suc base) l j h in
    (r.0, At-next (Claimable idle now) base (acked f) l j r.1)
claimed-At ids idle now base (tombstone lease ∷ l) j h =
    let r = claimed-At ids idle now (suc base) l j h in
    (r.0, At-next (Claimable idle now) base (tombstone lease) l j r.1)

pub in_memory-Documented : Documented in_memory
in_memory-Documented = record {
  xadd_fresh = λ f l. look-length l;
  xadd_look = λ f l i. look-append f l i;
  xadd_len = λ f l. omega (arith, sum_of-append in_stream (waiting f) l);
  xadd_pending = λ f l. omega (arith, sum_of-append is_pending (waiting f) l);
  xack_look = λ i l j. look-update after_ack i l j refl;
  xdel_look = λ i l j. look-update after_del i l j refl;
  read_new_count = λ c n now l h. omega (arith, first_waiting_count 0 l);
  read_new_reply =
      λ c n now l. All-map _ _ (λ e. At-zero (λ s. s ≡ waiting e.1) l e.0) _ (first_waiting-At 0 l);
  read_new_look =
      λ c n now l i. look-deliver c now (first_waiting 0 l) l i (first_waiting_count 0 l);
  read_own_count = λ c n now l h. omega (arith, first_own_count c 0 l);
  xclaim_look = λ c idle now ids l i.
      look-update_all (after_claim c idle now 1) ids 0 l i refl
      ∙ ap (λ n. if has_id n ids then after_claim c idle now 1 (look l i) else look l i)
          (omega arith);
  xclaim_reply = λ c idle now ids l i h.
      let r = claimed-At ids idle now 0 l i h in (r.0, At-zero (Claimable idle now) l i r.1);
  just_id_look = λ c idle now ids l i.
      look-update_all (after_claim c idle now 0) ids 0 l i refl
      ∙ ap (λ n. if has_id n ids then after_claim c idle now 0 (look l i) else look l i)
          (omega arith);
  xpending_rows = λ idle n now l.
      All-map _ _ (λ r. At-zero (Listed idle now r) l r.message_id) _ (idle_rows-At idle now 0 l);
}

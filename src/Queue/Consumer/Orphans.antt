-- ===== src/Queue/Consumer/Orphans.antt =====
-- Which entries a consumer may take over, and who gets them.
use mathlib.Core.Path.{subst}
use package.text.Mathlib.Text.{◌==◌ as str_eq}
use package.text.Mathlib.TextEquality.{eq_iff}
use ocr_orchestrator.Common.{
  ℕ, suc, ◌≡◌, ◌≢◌, ◌⊎◌, refl, sym, ap, ◌∙◌, true, false, List, [], ◌∷◌, ◌++◌, All, arith, ◌==◌,
  Bool-cases, inl, inr, String,
}
use ocr_orchestrator.Queue.Tasks.{Stream, lead, main, PageTask, Parsed, parsed, malformed, parse}
use ocr_orchestrator.Queue.Tasks.Carried.{parse_entry}
use ocr_orchestrator.Queue.Broker.{
  Broker, Documented, Entry, Row, Status, held, tombstone, has_id, ids_of, is_idle, Claimable,
  Listed,
}
use ocr_orchestrator.Queue.Streams.{Queue, Env, lane, set_lane, sort_entry}
use ocr_orchestrator.Queue.Consumer.{
  foreign, sort_claimed, claim_ids, scan_lane, claim_lane, claim_orphans,
}

All-append {ℓ κ} :
    {A : Type ℓ} (P : A → Type κ) (xs ys : List A) → All P xs → All P ys → All P (xs ++ ys)
All-append P [] ys h k = k
All-append P (x ∷ xs) ys h k = (h.0, All-append P xs ys h.1 k)

module _ {L : Type 0} (b : Broker L) (v : Env L) where
  -- A claimed task comes of an entry of the reply.
  sort_claimed-All :
      (P : PageTask → Type 0) (s : Stream) (es : List Entry) (ts : List PageTask) (q : Queue L)
      → All P ts
      → ((t : PageTask) → t.stream ≡ s → has_id t.entry_id (ids_of es) ≡ true → P t)
      → All P (sort_claimed b v s es (ts, q)).0
  unfolding sort_claimed
  sort_claimed-All P s [] ts q h k = h
  sort_claimed-All P s ((i, []) ∷ es) ts q h k =
      sort_claimed-All P s es ts q h (λ t e m. k t e (ground arith))
  sort_claimed-All P s ((i, kv ∷ f) ∷ es) ts q h k =
      sorted (parse s i (kv ∷ f)) refl
        (λ us r hs. sort_claimed-All P s es us r hs (λ t e m. k t e (ground arith)))
    where
      sorted :
          (p : Parsed PageTask)
          → parse s i (kv ∷ f) ≡ p
          → ((us : List PageTask) (r : Queue L)
              → All P us
              → All P (sort_claimed b v s es (us, r)).0)
          → All P (sort_claimed b v s es (sort_entry b v s i (kv ∷ f) p (ts, q))).0
      sorted (parsed t) e rest =
          let entry = parse_entry s i (kv ∷ f) e in
          rest (ts ++ (t ∷ [])) q (All-append P ts (t ∷ []) h (k t entry.1 (ground arith), tt))
      sorted (malformed x) e rest = rest ts (sort_entry b v s i (kv ∷ f) (malformed x) (ts, q)).1 h

-- An entry of another consumer, idle for long enough.
abbrev pub Foreign : (consumer : String) (idle now : ℕ) → Status → Type 0
Foreign me idle now (held f lease) = (lease.consumer ≢ me) × (is_idle idle now lease ≡ true)
Foreign me idle now (tombstone lease) = (lease.consumer ≢ me) × (is_idle idle now lease ≡ true)
Foreign me idle now _ = ⊥

Listed-Foreign :
    (me : String) (idle now : ℕ) (r : Row) (s : Status)
    → Listed idle now r s
    → r.consumer ≢ me
    → Foreign me idle now s
Listed-Foreign me idle now r (held f lease) h n = (λ e. n (sym h.0 ∙ e), h.1)
Listed-Foreign me idle now r (tombstone lease) h n = (λ e. n (sym h.0 ∙ e), h.1)
Listed-Foreign me idle now r (Status.absent) h n = absurd h
Listed-Foreign me idle now r (Status.waiting f) h n = absurd h
Listed-Foreign me idle now r (Status.acked f) h n = absurd h

str_eq-ne : (s t : String) → str_eq s t ≡ false → s ≢ t
str_eq-ne s t h e = let t≡f : true ≡ false = sym ((eq_iff s t).1 e) ∙ h in cc

module _ {L : Type 0} (b : Broker L) (docs : Documented b) (v : Env L) where
  foreign-Foreign :
      (idle now : ℕ) (look : ℕ → Status) (rows : List Row) (i : ℕ)
      → All (λ r. Listed idle now r (look r.message_id)) rows
      → has_id i (foreign b v rows) ≡ true
      → Foreign v.consumer idle now (look i)
  foreign-Foreign idle now look [] i h m = absurd (ground arith)
  foreign-Foreign idle now look (r ∷ rows) i h m =
      elim (Bool-cases (str_eq r.consumer v.consumer)) [
        | inl e ↦ foreign-Foreign idle now look rows i h.1 (rw e at m)
        | inr e ↦ elim (Bool-cases (r.message_id == i)) [
          | inl same ↦
              let id : r.message_id ≡ i = ground arith in
              subst (λ j. Foreign v.consumer idle now (look j)) id
                (Listed-Foreign v.consumer idle now r (look r.message_id) h.0
                  (str_eq-ne r.consumer v.consumer e))
          | inr other ↦ foreign-Foreign idle now look rows i h.1 (ground arith)
        ]
      ]

  abbrev pub at_scan : ℕ → Queue L → Queue L
  at_scan at q = v.meanwhile at q

  abbrev pub at_claim : ℕ → Queue L → Queue L
  at_claim at q = v.meanwhile (suc at) (at_scan at q)

  -- What is known of a task that was claimed: at the scan its entry was another consumer's and idle,
  -- and at the claim it still was idle.
  pub record Orphaned (at idle : ℕ) (s : Stream) (q : Queue L) (t : PageTask) : Type 0 where
    pub on_stream : t.stream ≡ s
    pub foreign_then :
        Foreign v.consumer idle (v.now at) (b.look (lane s (at_scan at q)) t.entry_id)
    pub idle_still : Claimable idle (v.now (suc at)) (b.look (lane s (at_claim at q)) t.entry_id)

  pub claim_lane-All :
      (P : PageTask → Type 0) (at idle n : ℕ) (s : Stream) (ts : List PageTask) (q : Queue L)
      → All P ts
      → ((t : PageTask)
          → Orphaned at idle s q t
          → has_id t.entry_id (scan_lane b v at idle n s (at_scan at q)) ≡ true
          → P t)
      → All P (claim_lane b v at idle n s (ts, q)).0
  claim_lane-All P at idle n s ts q h k = claimed (scan_lane b v at idle n s (at_scan at q)) refl
    where
      claimed :
          (ids : List ℕ)
          → scan_lane b v at idle n s (at_scan at q) ≡ ids
          → All P (claim_ids b v (suc at) idle s ids (ts, at_scan at q)).0
      claimed [] e = h
      claimed (i ∷ ids) e =
          let l = lane s (at_claim at q) in
          let reply = b.xclaim v.consumer idle (v.now (suc at)) (i ∷ ids) l in
          sort_claimed-All b v P s reply.0 ts (set_lane s reply.1 (at_claim at q)) h (λ t on m.
            let r = docs.xclaim_reply v.consumer idle (v.now (suc at)) (i ∷ ids) l t.entry_id m in
            let asked = ap (has_id t.entry_id) e ∙ r.0 in
            k t
              (record {
                on_stream = on;
                foreign_then =
                    foreign-Foreign idle (v.now at) (b.look (lane s (at_scan at q)))
                      (b.xpending_range idle n (v.now at) (lane s (at_scan at q))) t.entry_id
                      (docs.xpending_rows idle n (v.now at) (lane s (at_scan at q))) asked;
                idle_still = r.1;
              })
              asked)

  -- A claim takes no entry that was this consumer's own at the scan, nor one that anybody heard of
  -- within the limit, at the scan or at the claim. Each task of the lead lane is known from the first
  -- scan, each of the main lane from the second.
  pub claim_orphans-Orphaned :
      (idle n : ℕ) (q : Queue L)
      → All
          (λ t.
            Orphaned 0 idle lead q t
            ⊎ Orphaned 2 idle main (claim_lane b v 0 idle n lead ([], q)).1 t)
          (claim_orphans b v idle n q).0
  unfolding claim_orphans
  claim_orphans-Orphaned idle n q =
      let first = claim_lane b v 0 idle n lead ([], q) in
      let P = λ (t : PageTask). Orphaned 0 idle lead q t ⊎ Orphaned 2 idle main first.1 t in
      claim_lane-All P 2 idle n main first.0 first.1
        (claim_lane-All P 0 idle n lead [] q tt (λ t o m. inl o)) (λ t o m. inr o)

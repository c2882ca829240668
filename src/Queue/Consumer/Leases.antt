-- ===== src/Queue/Consumer/Leases.antt =====
-- What the claims of app/queue/streams.py do to a lease, and who cannot get the entry then.
use ocr_orchestrator.Common.{
  ℕ, suc, ◌+◌, ◌-◌, ◌≤◌, ◌<◌, ◌≡◌, ◌≢◌, refl, ap, ◌∙◌, [], All, arith, leb→le, String,
}
use ocr_orchestrator.Queue.Tasks.{Fields, Stream}
use ocr_orchestrator.Queue.Broker.{
  Broker, Documented, Status, absent, waiting, acked, held, tombstone, Lease, Claimable,
  after_claim,
}
use ocr_orchestrator.Queue.Streams.{Queue, Env, lane}
use ocr_orchestrator.Queue.Consumer.{claim_lane, scan_lane}
use ocr_orchestrator.Queue.Consumer.Orphans.{claim_lane-All, at_claim, at_scan}

-- From one time to a later one, no clock of an entry that stays pending is set back.
abbrev pub Forward : {L : Type 0} → Broker L → L → L → Type 0
Forward b l l' =
    (i : ℕ) (f f' : Fields) (lease lease' : Lease)
    → b.look l i ≡ held f lease
    → b.look l' i ≡ held f' lease'
    → lease.delivered_at ≤ lease'.delivered_at

-- Nobody can claim an entry again before it has been idle for as long anew.
pub not_yet :
    (idle later since : ℕ) (s : Status)
    → 0 < idle
    → later < since + idle
    → ((f : Fields) (lease : Lease) → s ≡ held f lease → since ≤ lease.delivered_at)
    → Claimable idle later s
    → ⊥
not_yet idle later since (held f lease) p h k c =
    omega (arith, k f lease refl, leb→le idle (later - lease.delivered_at) c)
not_yet idle later since absent p h k c = c
not_yet idle later since (waiting f) p h k c = c
not_yet idle later since (acked f) p h k c = c
not_yet idle later since (tombstone l) p h k c = c

claimed_held :
    (c : String) (idle now step : ℕ) (s : Status)
    → Claimable idle now s
    → (f : Fields) × (lease : Lease) × (after_claim c idle now step s ≡ held f lease)
      × (lease.delivered_at ≡ now)
claimed_held c idle now step (held f lease) h = (
  f,
  record { consumer = c; delivered_at = now; deliveries = lease.deliveries + step },
  rw h,
  refl,
)
claimed_held c idle now step absent h = absurd h
claimed_held c idle now step (waiting f) h = absurd h
claimed_held c idle now step (acked f) h = absurd h
claimed_held c idle now step (tombstone l) h = absurd h

module _ {L : Type 0} (b : Broker L) (docs : Documented b) where
  -- The lane behind the claim of a consumer.
  abbrev pub claimed_from : Env L → (at idle n : ℕ) → Stream → Queue L → L
  claimed_from v at idle n s q =
      (b.xclaim v.consumer idle (v.now (suc at)) (scan_lane b v at idle n s (at_scan b docs v at q))
        (lane s (at_claim b docs v at q))).1

  -- Of two consumers that scan a lane and claim what they saw, the second gets no entry of the first
  -- if it claims within the idle limit, whatever both of them saw: the claim of the first set the
  -- clock of the entry anew, and no clock is set back in between.
  pub claims_exclusive :
      (v w : Env L) (at later idle n m : ℕ) (s : Stream) (q r : Queue L)
      → 0 < idle
      → w.now (suc later) < v.now (suc at) + idle
      → Forward b (claimed_from v at idle n s q) (lane s (at_claim b docs w later r))
      → All
          (λ t. All (λ u. t.entry_id ≢ u.entry_id) (claim_lane b w later idle m s ([], r)).0)
          (claim_lane b v at idle n s ([], q)).0
  claims_exclusive v w at later idle n m s q r p h forward =
      claim_lane-All b docs v _ at idle n s [] q tt (λ t o asked.
        claim_lane-All b docs w _ later idle m s [] r tt (λ u o' asked' e.
          let id = t.entry_id in
          let l = lane s (at_claim b docs v at q) in
          let c = claimed_held v.consumer idle (v.now (suc at)) 1 (b.look l id) o.idle_still in
          let moved : b.look (claimed_from v at idle n s q) id ≡ held c.0 c.1 =
            docs.xclaim_look v.consumer idle (v.now (suc at))
              (scan_lane b v at idle n s (at_scan b docs v at q)) l id
            ∙ (rw asked c.2) in
          not_yet idle (w.now (suc later)) (v.now (suc at)) _ p h
            (λ (f : Fields) (lease : Lease)
                (held' : b.look (lane s (at_claim b docs w later r)) u.entry_id ≡ held f lease).
              omega (
                arith,
                c.3,
                forward id c.0 f c.1 lease moved
                    (ap (b.look (lane s (at_claim b docs w later r))) e ∙ held'),
              ))
            o'.idle_still))

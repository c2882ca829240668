-- ===== src/Queue/Consumer/Renewals.antt =====
-- What the renewals of app/queue/streams.py do to a lease.
use ocr_orchestrator.Common.{
  ℕ, suc, ◌+◌, ◌<◌, ◌≡◌, ◌≢◌, refl, sym, ap, ◌∙◌, true, false, List, [], ◌∷◌, All, arith,
  if◌then◌else◌,
}
use ocr_orchestrator.Queue.Tasks.{Fields, Stream, lead, main, PageTask}
use ocr_orchestrator.Queue.Broker.{Broker, Documented, Status, held, Lease, has_id, after_claim}
use ocr_orchestrator.Queue.Streams.{Queue, Env, lane, is_stream}
use ocr_orchestrator.Queue.Streams.Requeue.{status, is_stream_self}
use ocr_orchestrator.Queue.Consumer.{
  claim_lane, ids_on, lanes_from, renew_ids, renew_lanes, renew_leases,
}
use ocr_orchestrator.Queue.Consumer.Orphans.{claim_lane-All, at_claim}
use ocr_orchestrator.Queue.Consumer.Leases.{Forward, not_yet}

module _ {L : Type 0} (b : Broker L) (docs : Documented b) where
  module _ (v : Env L) (quiet : (k : ℕ) (q : Queue L) → v.meanwhile k q ≡ q) where
    status-renew_ids :
        (at : ℕ) (s : Stream) (ids : List ℕ) (n : ℕ) (q : Queue L) (r : Stream) (j : ℕ)
        → status b (renew_ids b v at s ids (n, q)).1 r j ≡ (
            if is_stream s r
            then (if has_id j ids
                then after_claim v.consumer 0 (v.now at) 0 (status b q r j)
                else status b q r j)
            else status b q r j)
    status-renew_ids at lead [] n q lead j = refl
    status-renew_ids at lead [] n q main j = refl
    status-renew_ids at main [] n q lead j = refl
    status-renew_ids at main [] n q main j = refl
    status-renew_ids at lead (i ∷ ids) n q lead j =
        rw (quiet at q) (docs.just_id_look v.consumer 0 (v.now at) (i ∷ ids) q.lead_lane j)
    status-renew_ids at lead (i ∷ ids) n q main j = rw (quiet at q)
    status-renew_ids at main (i ∷ ids) n q lead j = rw (quiet at q)
    status-renew_ids at main (i ∷ ids) n q main j =
        rw (quiet at q) (docs.just_id_look v.consumer 0 (v.now at) (i ∷ ids) q.main_lane j)

    abbrev pub renewed_at : ℕ → Lease → Lease
    renewed_at at lease = record {
      consumer = v.consumer;
      delivered_at = v.now at;
      deliveries = lease.deliveries;
    }

    abbrev pub Renewed : ℕ → Fields → Lease → Status → Type 0
    Renewed at f lease after = (at < 2) × (after ≡ held f (renewed_at at lease))

    renew_first :
        (at n : ℕ) (s : Stream) (ids : List ℕ) (i : ℕ) (q : Queue L) (f : Fields) (lease : Lease)
        → has_id i ids ≡ true
        → status b q s i ≡ held f lease
        → status b (renew_ids b v at s ids (n, q)).1 s i ≡ held f (renewed_at at lease)
    renew_first at n s ids i q f lease m h =
        status-renew_ids at s ids n q s i ∙ (rw (is_stream_self s) (rw m (rw h (ground arith))))

    renew_other :
        (at n : ℕ) (r s : Stream) (ids : List ℕ) (i : ℕ) (q : Queue L)
        → is_stream r s ≡ false
        → status b (renew_ids b v at r ids (n, q)).1 s i ≡ status b q s i
    renew_other at n r s ids i q e = status-renew_ids at r ids n q s i ∙ rw e

    module _ (us : List PageTask) (i : ℕ) (q : Queue L) (f : Fields) (lease : Lease) where
      renew_two :
          (x s : Stream)
          → has_id i (ids_on s us) ≡ true
          → status b q s i ≡ held f lease
          → (at : ℕ) × Renewed at f lease
              (status b (renew_lanes b v 0 us (lanes_from x) (0, q)).1 s i)
      unfolding renew_leases
      renew_two lead lead m h =
          let first = renew_ids b v 0 lead (ids_on lead us) (0, q) in
          (
            0,
            (
              omega arith,
              renew_other 1 first.0 main lead (ids_on main us) i first.1 refl
                  ∙ renew_first 0 0 lead (ids_on lead us) i q f lease m h,
            ),
          )
      renew_two lead main m h =
          let first = renew_ids b v 0 lead (ids_on lead us) (0, q) in
          (
            1,
            (
              omega arith,
              renew_first 1 first.0 main (ids_on main us) i first.1 f lease m
                  (renew_other 0 0 lead main (ids_on lead us) i q refl ∙ h),
            ),
          )
      renew_two main main m h =
          let first = renew_ids b v 0 main (ids_on main us) (0, q) in
          (
            0,
            (
              omega arith,
              renew_other 1 first.0 lead main (ids_on lead us) i first.1 refl
                  ∙ renew_first 0 0 main (ids_on main us) i q f lease m h,
            ),
          )
      renew_two main lead m h =
          let first = renew_ids b v 0 main (ids_on main us) (0, q) in
          (
            1,
            (
              omega arith,
              renew_first 1 first.0 lead (ids_on lead us) i first.1 f lease m
                  (renew_other 0 0 main lead (ids_on main us) i q refl ∙ h),
            ),
          )

    renew_leases_renews :
        (ts : List PageTask) (s : Stream) (i : ℕ) (q : Queue L) (f : Fields) (lease : Lease)
        → has_id i (ids_on s ts) ≡ true
        → status b q s i ≡ held f lease
        → (at : ℕ) × Renewed at f lease (status b (renew_leases b v ts q).1 s i)
    unfolding renew_leases
    renew_leases_renews [] s i q f lease m h = absurd (ground arith)
    renew_leases_renews (t ∷ ts) s i q f lease m h = renew_two (t ∷ ts) i q f lease t.stream s m h

    -- A renewal gives every pending entry of the tasks to this worker, with a new clock and the old
    -- count of deliveries. Whoever claims within the idle limit from then does not get it, if no clock is
    -- set back in between. Nobody else acts during the renewal.
    pub renew_leases-Renewed :
        (ts : List PageTask) (s : Stream) (i : ℕ) (q : Queue L) (f : Fields) (lease : Lease)
        (w : Env L) (later idle n : ℕ) (r : Queue L)
        → has_id i (ids_on s ts) ≡ true
        → status b q s i ≡ held f lease
        → 0 < idle
        → ((at : ℕ) → at < 2 → w.now (suc later) < v.now at + idle)
        → Forward b (lane s (renew_leases b v ts q).1) (lane s (at_claim b docs w later r))
        → (at : ℕ) × Renewed at f lease (status b (renew_leases b v ts q).1 s i)
          × All (λ t. t.entry_id ≢ i) (claim_lane b w later idle n s ([], r)).0
    renew_leases-Renewed ts s i q f lease w later idle n r m h p short forward =
        let renewed = renew_leases_renews ts s i q f lease m h in
        let at = renewed.0 in
        (
          at,
          renewed.1,
          claim_lane-All b docs w (λ t. t.entry_id ≢ i) later idle n s [] r tt
              (λ t o asked e.
                not_yet idle (w.now (suc later)) (v.now at) _ p (short at renewed.1.0)
                  (λ (f' : Fields) (lease' : Lease)
                      (held' : b.look (lane s (at_claim b docs w later r)) t.entry_id
                        ≡ held f' lease').
                    forward i f f' (renewed_at at lease) lease' renewed.1.1
                      (ap (b.look (lane s (at_claim b docs w later r))) (sym e) ∙ held'))
                  o.idle_still),
        )

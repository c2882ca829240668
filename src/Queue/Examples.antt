-- ===== src/Queue/Examples.antt =====
-- The theorems on the streams at concrete queues.
use ocr_orchestrator.Common.{
  ℕ, ◌+◌, ◌≤◌, ◌≡◌, ◌≢◌, ◌⊎◌, refl, true, false, none, some, List, [], ◌∷◌, arith, All,
  if◌then◌else◌, ◌==◌, length,
}
use ocr_orchestrator.Queue.Tasks.{
  Stream, parse, text, Fields, lead, main, PageTask, parsed, first_fields,
}
use ocr_orchestrator.Queue.Tasks.Carried.{requeued, requeued-Carries, Carries}
use ocr_orchestrator.Queue.Broker.{Lease, held, waiting, absent}
use ocr_orchestrator.Queue.Broker.InMemory.{Lane, in_memory}
use ocr_orchestrator.Queue.Broker.Meets.{in_memory-Documented}
use ocr_orchestrator.Queue.Streams.{
  Queue, Env, lane, pipeline, enqueue_pages, requeue_commands, flatten, flatten_all, depth,
}
use ocr_orchestrator.Queue.Streams.Requeue.{status, Queued, requeue_keeps}
use ocr_orchestrator.Queue.Streams.Enqueue.{enqueue_pages_lem}
use ocr_orchestrator.Queue.Consumer.{claim_lane, claim_orphans, read, renew_leases}
use ocr_orchestrator.Queue.Consumer.Budgets.{read_bound, budget_of}
use ocr_orchestrator.Queue.Consumer.Overshoot.{read_one_overshoots}
use ocr_orchestrator.Queue.Consumer.Orphans.{Orphaned, claim_orphans-Orphaned}
use ocr_orchestrator.Queue.Consumer.Leases.{Forward, claims_exclusive}
use ocr_orchestrator.Queue.Consumer.Renewals.{Renewed, renew_leases-Renewed}
use ocr_orchestrator.Queue.Consumer.Quarantine.{flatten_accounts}
use ocr_orchestrator.Queue.Consumer.Settled.{flatten_settles}

abbrev first_page : Fields
first_page = first_fields (text "job") (text "trace") 1000 0

abbrev second_page : Fields
second_page = first_fields (text "job") (text "trace") 1000 1

abbrev lease : Lease
lease = record { consumer = "a"; delivered_at = 0; deliveries = 1 }

-- Page 0 is held by a worker that is gone, and page 1 waits.
abbrev queue : Queue Lane
queue = record {
  lead_lane = held first_page lease ∷ [];
  main_lane = waiting second_page ∷ [];
  poison = [];
  poison_total = 0;
}

abbrev task : PageTask
task = record {
  entry_id = 0;
  job_id = text "job";
  page_index = 0;
  enqueued_at_ms = 1000;
  trace_id = text "trace";
  recovered = false;
  stream = lead;
  attempt = 0;
  first_enqueued_at_ms = 1000;
}

abbrev env : Env Lane
env = record {
  consumer = "b";
  now = λ n. 100;
  meanwhile = λ n q. q;
  fault = λ n. none;
  written = λ n. 2;
  describe = λ e. "KeyError";
}

abbrev other : Env Lane
other = record env { consumer = "c"; now = λ n. 110 }

-- Worker "b" has claimed page 0.
abbrev taken_over : Queue Lane
taken_over = record queue {
  lead_lane = held first_page (record { consumer = "b"; delivered_at = 100; deliveries = 2 }) ∷ [];
}

-- Nothing happens to a lane that stays as it is.
still-Forward : (l : Lane) → Forward in_memory l l
still-Forward l i f f' a b e e' =
    let same : held f a ≡ held f' b = cc in let leases : a ≡ b = cc in rw leases (omega arith)

requeue_keeps_example :
    Queued in_memory (pipeline in_memory 2 (requeue_commands true 2000 task) queue) (text "job") 0
requeue_keeps_example =
    requeue_keeps in_memory in_memory-Documented true 2000 task 2 queue (refl, refl)

enqueue_pages_lem_example :
    let r = (enqueue_pages in_memory (text "job") (text "trace") 1000 3 queue).1 in
    ((i : ℕ) × (status in_memory r main i
        ≡ waiting (first_fields (text "job") (text "trace") 1000 2)))
    × (in_memory.xlen r.lead_lane ≡ 2)
    × (in_memory.xlen r.main_lane ≡ 3)
    × ((depth in_memory r).stream_length ≡ (depth in_memory queue).stream_length + 3)
    × ((depth in_memory r).pending ≡ (depth in_memory queue).pending)
enqueue_pages_lem_example =
    enqueue_pages_lem in_memory in_memory-Documented (text "job") (text "trace") 1000 3 2 queue
      (omega arith)

claim_orphans-Orphaned_example :
    All
      (λ t.
        Orphaned in_memory in_memory-Documented env 0 50 lead queue t
        ⊎ Orphaned in_memory in_memory-Documented env 2 50 main
            (claim_lane in_memory env 0 50 10 lead ([], queue)).1
            t)
      (claim_orphans in_memory env 50 10 queue).0
claim_orphans-Orphaned_example =
    claim_orphans-Orphaned in_memory in_memory-Documented env 50 10 queue

claims_exclusive_example :
    All
      (λ t.
        All
          (λ u. t.entry_id ≢ u.entry_id)
          (claim_lane in_memory other 0 50 10 lead ([], taken_over)).0)
      (claim_lane in_memory env 0 50 10 lead ([], queue)).0
claims_exclusive_example =
    claims_exclusive in_memory in_memory-Documented env other 0 0 50 10 10 lead queue taken_over
      (omega arith) (omega arith) (still-Forward taken_over.lead_lane)

requeued-Carries_example :
    (u : PageTask) × (requeued ((5, true, 2000) ∷ (6, false, 3000) ∷ []) task ≡ parsed u)
    × Carries 1 task u
requeued-Carries_example =
    requeued-Carries ((5, true, 2000) ∷ (6, false, 3000) ∷ []) task (omega arith)

renew_leases-Renewed_example :
    let r = (renew_leases in_memory env (task ∷ []) queue).1 in
    (at : ℕ) × Renewed in_memory in_memory-Documented env
      (λ n q. refl)
      at
      first_page
      lease
      (status in_memory r lead 0)
    × All (λ t. t.entry_id ≢ 0) (claim_lane in_memory other 0 50 10 lead ([], r)).0
renew_leases-Renewed_example =
    renew_leases-Renewed in_memory in_memory-Documented env (λ n q. refl) (task ∷ []) lead 0 queue
      first_page lease other 0 50 10 (renew_leases in_memory env (task ∷ []) queue).1 refl refl
      (omega arith) (λ at h. omega arith)
      (still-Forward (lane lead (renew_leases in_memory env (task ∷ []) queue).1))

-- The second entry cannot be read.
abbrev spoilt : Queue Lane
spoilt = record queue {
  main_lane = waiting second_page ∷ held (("job_id", text "job") ∷ []) lease ∷ [];
}

abbrev reply : List (Stream × List (ℕ × Fields))
reply = (lead, (0, first_page) ∷ []) ∷ (main, (1, ("job_id", text "job") ∷ []) ∷ []) ∷ []

flatten_settles_example : status in_memory (flatten in_memory env reply spoilt).1 main 1 ≡ absent
unfolding parse
flatten_settles_example =
    flatten_settles in_memory in_memory-Documented env reply spoilt 1 0 main
      ((1, ("job_id", text "job") ∷ []) ∷ []) 1 (("job_id", text "job") ∷ []) refl refl tt tt

flatten_accounts_example :
    length (flatten_all in_memory env reply ([], spoilt)).0
      + (flatten_all in_memory env reply ([], spoilt)).1.poison_total
    ≡ 2
flatten_accounts_example = flatten_accounts in_memory env (λ i. omega arith) reply ([], spoilt)

abbrev second_task : PageTask
second_task = record task { page_index = 1; stream = main }

read_bound_example : length (second_task ∷ []) ≤ budget_of none 1 2
unfolding read flatten_all parse
read_bound_example =
    read_bound in_memory in_memory-Documented env 2000 none 1 2 0 queue {ts = second_task ∷ []} refl

abbrev vacant : Queue Lane
vacant = record { lead_lane = []; main_lane = []; poison = []; poison_total = 0 }

-- While the worker waits, an entry comes to each lane.
abbrev arrivals : Env Lane
arrivals = record env {
  meanwhile = λ n q.
      if n == 2
      then record q { lead_lane = waiting first_page ∷ []; main_lane = waiting second_page ∷ [] }
      else q;
}

read_one_overshoots_example :
    (read in_memory arrivals 2000 (some 1) 0 0 0 vacant).0 ≡ some (task ∷ second_task ∷ [])
unfolding parse
read_one_overshoots_example =
    read_one_overshoots in_memory arrivals 2000 vacant 0 0 first_page second_page task second_task
      (omega arith) (λ n. refl) refl refl refl refl refl refl

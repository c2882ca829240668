-- ===== src/Lib.antt =====
-- OCR orchestrator. A job is a document of pages; every page passes a layout stage and a VLM stage,
-- each a call of a rate-limited inference endpoint, and ends with a full result, a degraded one or a
-- recorded failure. Replicas of the worker share all state in Redis: the state of the pages, two task
-- streams that deliver the pages to the workers, a result stream for each job, and per endpoint a
-- circuit breaker, an adaptive rate and a token bucket. A worker reads tasks as its slots allow, runs the
-- pipeline on each, and then acknowledges the task or puts it back; the reaper of every worker takes over
-- the tasks of workers that are gone. The API admits jobs and streams the results of a job to its
-- subscribers. The state of the pages and of the endpoints is changed by Lua scripts, which the server
-- runs as a whole, so a history of it is a sequence of such calls, in any order and by any replica. The
-- model has one function for each script, and the theorems are about sequences of calls of it. The
-- streams are changed by single commands, between which anybody may act.
--
-- Parts, and the files of this library:
--   app/queue/state.py            Queue/State (enums and transition table), Queue/Hashes (the hashes of a
--                                 job), Queue/Store (the script, PageStateStore)
--   app/queue/streams.py          Queue/Tasks (PageTask, _parse), Queue/Streams (the producer, requeue, ack,
--                                 _quarantine, _flatten, depth), Queue/Consumer (read, read_own_pending,
--                                 claim_orphans, renew_leases)
--   app/queue/results.py          Queue/Results (ResultPublisher, ResultReader)
--   app/ratelimit/breaker.py      RateLimit/Breaker (CircuitBreaker)
--   app/ratelimit/token_bucket.py RateLimit/Bucket (TokenBucketLimiter)
--   app/ratelimit/adaptive.py     RateLimit/Adaptive (AdaptiveRate)
--   app/ratelimit/retry.py        RateLimit/Retry (classify, retry_after_ms, backoff_delay_s)
--   app/worker/client.py          Worker/Client (ModelClient._post and _post_with_retries), which composes
--                                 the four of app/ratelimit
--   app/worker/pipeline.py        Worker/Pipeline (the accesses of the store, _emit, _degrade, release_claim,
--                                 force_terminal), Worker/Process (process_page)
--   app/worker/main.py            Worker/Loop (_handle_page), Worker/Dispatch (run, as turns, with _spawn and
--                                 _handle), Worker/Limits (final_attempt)
--   app/worker/reaper.py          Worker/Reaper (Reaper), Worker/Limits (exhausted)
--   app/config.py                 Worker/Limits (effective_max_requeues)
--   app/api/admission.py          Api/Admission (AdmissionController)
--   app/api/stream.py             Api/Stream (SubscriberSlots, stream_results, _events, _frames)
--   app/eval/text.py              Eval/Text (levenshtein), Eval/Graphemes (graphemes), Eval/Score (words,
--                                 TextScore, cer_score, wer_score, aggregate)
--   app/eval/iou.py               Eval/Boxes (iou, match_boxes, score_boxes)
-- The children of a module hold its theorems; the Tests, Examples, Publications, Deliveries and Connections
-- run them on concrete inputs. Common has the Boolean tests, the lists and the integers on native numbers.
--
-- State and operations. A hash in Redis is a record and a key an optional one: `none` is a key that is
-- missing. Each record carries the time of its expiry, and a call that comes later finds the key gone,
-- as the scripts would. A script is a function from the key to its reply and the new key, with the
-- clock as an argument; times never come from the model. The page hashes of a job are the elements of
-- a list, so that page_key(job_id, index) is a position in it; the fields that a caller may add to a
-- page are an association list, and no caller writes one of the store's own fields there. Transition
-- compares its own wall clock and expires by the server's, which are two arguments. The TTL sweep of
-- transition is a pipeline that may fail midway: `reached` is how far it gets.
--
-- Streams. The commands of Redis on a stream are parameters: Broker for a stream with its consumer group,
-- Log for one without. Documented states what their documentation says of them, by what each command does
-- to the status of an entry (waiting, held by a consumer, deleted but still pending, absent) and to the
-- counts. Queue/Broker/InMemory and Queue/Results/InMemory are instances that have the laws, on which the
-- tests run. An Env of Queue/Streams says what others do to the streams before each command that reads or
-- claims, which reads fail, and how far the pipeline of a quarantine gets. The entry id of a task is a
-- number, as the model only compares ids for equality; an id of the result stream is the pair of numbers
-- that it is compared by. A field is the text of a number or any other text.
--
-- Numbers. The Lua scripts compute with doubles. Times are whole microseconds (milliseconds in Queue, Api
-- and the worker's loop), the resolution of TIME. The bucket's rate is in thousandths, which makes every
-- amount a whole number of billionths of a token, and its balance is an integer. The breaker's ratio is a
-- fraction and is compared by cross multiplication. The adaptive rate and the latencies are bit patterns
-- of doubles that are not negative, ordered as the doubles are; the multiplication by decrease_factor, the
-- addition of increase_step and the rounding of a rate to thousandths are parameters, of which IsValid asks
-- only that the first never yields more, the second never less, and the third keeps the order. The score of
-- two boxes is an exact fraction and their coordinates are whole numbers. The rounding of the bucket's
-- doubles and of the scores is not modelled, and the limit on requeues is a quotient of whole numbers.
-- None of this wraps around.
--
-- Bounds and fuel. The retry loop runs max_attempts times as in the code. The loop of a subscriber's
-- connection runs on fuel, one unit for each turn; it ends when the connection is over its longest
-- duration, so the number of turns up to that is enough. The dispatch loop is a list of turns of any
-- length. All else is structural recursion.
--
-- Random draws, the HTTP exchange, and the answers of the model calls in the pipeline are arguments.
-- Before each of its accesses of the store the pipeline lets other replicas make any calls. Within one
-- call of the client no other replica touches the endpoint's keys. Not modelled: logs, tracing and metrics,
-- the keys' names, the idempotency key, JSON and the text of frames, the reads consumers and poison_count,
-- the timer that drives the reaper, signals, the sweep of orphaned documents, the HTTP handlers other than
-- the event stream, the PDF splitter, the tree edit distance, and the mock of the inference service.
pub mod Common
pub mod Queue
pub mod RateLimit
pub mod Worker
pub mod Api
pub mod Eval

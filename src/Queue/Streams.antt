-- ===== src/Queue/Streams.antt =====
-- app/queue/streams.py: `PageQueue`, its producer, its acknowledgements and its quarantine, on a
-- broker of streams (the reads and claims are in Consumer). Other processes may do anything to the
-- streams before each command that reads or claims (`meanwhile`), such a command may fail, and a
-- pipeline may be cut short. Logs are left out.
pub mod Requeue
pub mod Enqueue
use Prim.Native.String.{◌++◌ as concat}
use package.text.Mathlib.Text.{◌==◌ as str_eq}
use ocr_orchestrator.Common.{
  ℕ, zero, suc, ◌+◌, ◌-◌, ◌/◌, min, max, Bool, true, false, not, ◌&&◌, ◌||◌, Option, none, some,
  List, [], ◌∷◌, ◌++◌, String, ltb, ◌==◌, if◌then◌else◌, length, map,
}
use ocr_orchestrator.Queue.Tasks.{
  Value, number, text, Fields, Stream, lead, main, PageTask, ParseError, Parsed, parsed, malformed,
  parse, first_fields, retry_fields,
}
use ocr_orchestrator.Queue.Broker.{Broker, Entry, Row, ids_of}

pub record Queue (L : Type 0) : Type 0 where
  pub lead_lane : L
  pub main_lane : L
  pub poison : L
  pub poison_total : ℕ

-- A command that reads: its result, NOGROUP, or any other error, which is raised to the caller.
pub data Response (A : Type 0) : Type 0 where
  replied : A → Response A
  no_group : Response A
  refused : Response A

pub data Fault : Type 0 where
  lost_group other_error : Fault

abbrev pub poison_maxlen : ℕ
poison_maxlen = 1000

-- `STREAMS`
abbrev pub streams : List Stream
streams = lead ∷ main ∷ []

abbrev pub stream_name : Stream → String
stream_name lead = "stream:pages:lead"
stream_name main = "stream:pages"

abbrev pub is_stream : Stream → Stream → Bool
is_stream lead lead = true
is_stream main main = true
is_stream _ _ = false

-- What is outside of a call: the consumer, the server's clock and what others do before each of its
-- reads and claims, which of these fail, how much of each quarantine is written, the text of an
-- exception.
pub record Env (L : Type 0) : Type 0 where
  pub consumer : String
  pub now : ℕ → ℕ
  pub meanwhile : ℕ → Queue L → Queue L
  pub fault : ℕ → Option Fault
  pub written : ℕ → ℕ
  pub describe : ParseError → String

-- A command that writes.
pub data Command : Type 0 where
  add : Stream → Fields → Command
  acknowledge : Stream → ℕ → Command
  delete : Stream → ℕ → Command
  add_poison : Fields → Command
  count_poison : Command

module _ {L : Type 0} where
  abbrev pub lane : Stream → Queue L → L
  lane lead q = q.lead_lane
  lane main q = q.main_lane

  abbrev pub set_lane : Stream → L → Queue L → Queue L
  set_lane lead l q = record q { lead_lane = l }
  set_lane main l q = record q { main_lane = l }

module _ {L : Type 0} (b : Broker L) where
  abbrev pub execute : Command → Queue L → Queue L
  execute (add s f) q = set_lane s (b.xadd f (lane s q)).1 q
  execute (acknowledge s i) q = set_lane s (b.xack i (lane s q)) q
  execute (delete s i) q = set_lane s (b.xdel i (lane s q)) q
  execute (add_poison f) q = record q { poison = b.xadd_capped poison_maxlen f q.poison }
  execute count_poison q = record q { poison_total = suc q.poison_total }

  -- The first `reached` of the commands.
  unfoldable pub pipeline : (reached : ℕ) → List Command → Queue L → Queue L
  pipeline zero cs q = q
  pipeline (suc n) [] q = q
  pipeline (suc n) (c ∷ cs) q = pipeline n cs (execute c q)

  abbrev pub all_of : List Command → Queue L → Queue L
  all_of cs q = pipeline (length cs) cs q

-- `ensure_group`: BUSYGROUP leaves the lane as it is.
abbrev pub created : {L : Type 0} → L → Option L → L
created l none = l
created l (some new) = new

module _ {L : Type 0} (b : Broker L) where
  unfoldable pub ensure_group : Queue L → Queue L
  ensure_group q = record q {
    lead_lane = created q.lead_lane (b.xgroup_create q.lead_lane);
    main_lane = created q.main_lane (b.xgroup_create q.main_lane);
  }

-- `enqueue_pages`: pages `index` to `index + n - 1` of `range(total_pages)`.
abbrev pub page_lane : ℕ → Stream
page_lane index = if index == 0 then lead else main

unfoldable pub enqueue_commands : (job trace : Value) → (now index n : ℕ) → List Command
enqueue_commands job trace now index zero = []
enqueue_commands job trace now index (suc n) =
    add (page_lane index) (first_fields job trace now index)
    ∷ enqueue_commands job trace now (suc index) n

module _ {L : Type 0} (b : Broker L) where
  unfoldable pub enqueue_pages : (job trace : Value) → (now total : ℕ) → Queue L → ℕ × Queue L
  unfolding enqueue_commands
  enqueue_pages job trace now total q = (total, all_of b (enqueue_commands job trace now 0 total) q)

-- `ack`
abbrev pub ack_commands : Stream → ℕ → List Command
ack_commands s i = acknowledge s i ∷ delete s i ∷ []

-- `requeue`: the replacement, then the acknowledgement.
abbrev pub requeue_commands : Bool → ℕ → PageTask → List Command
requeue_commands counted now t =
    add main (retry_fields counted now t) ∷ ack_commands t.stream t.entry_id

module _ {L : Type 0} (b : Broker L) where
  abbrev pub ack : Stream → ℕ → Queue L → Queue L
  ack s i q = all_of b (ack_commands s i) q

  abbrev pub requeue : Bool → ℕ → PageTask → Queue L → Queue L
  requeue counted now t q = all_of b (requeue_commands counted now t) q

-- `_quarantine`: an error of its own pipeline is caught, and the entry is settled all the same; the
-- pipeline of that `ack` gets through.
abbrev pub quoted : Fields → Fields
quoted [] = []
quoted ((k, v) ∷ m) = (concat "field:" k, v) ∷ quoted m

abbrev pub poison_fields : Stream → ℕ → Fields → String → Fields
poison_fields s i f reason =
    ("origin_stream", text (stream_name s))
    ∷ ("origin_entry_id", number i)
    ∷ ("reason", text reason)
    ∷ quoted f

module _ {L : Type 0} (b : Broker L) (v : Env L) where
  abbrev pub quarantine : Stream → ℕ → Fields → ParseError → Queue L → Queue L
  quarantine s i f e q = ack b s i (
      pipeline b (v.written i) (add_poison (poison_fields s i f (v.describe e)) ∷ count_poison ∷ [])
        q)

  -- `_flatten`, on the entries of one stream: what is malformed is settled.
  abbrev pub sort_entry :
      Stream → ℕ → Fields → Parsed PageTask → List PageTask × Queue L → List PageTask × Queue L
  sort_entry s i f (parsed t) (ts, q) = (ts ++ (t ∷ []), q)
  sort_entry s i f (malformed e) (ts, q) = (ts, quarantine s i f e q)

  unfoldable pub flatten_lane :
      Stream → List Entry → List PageTask × Queue L → List PageTask × Queue L
  flatten_lane s [] r = r
  flatten_lane s ((i, f) ∷ es) r = flatten_lane s es (sort_entry s i f (parse s i f) r)

  unfoldable pub flatten_all :
      List (Stream × List Entry) → List PageTask × Queue L → List PageTask × Queue L
  unfolding flatten_lane
  flatten_all [] r = r
  flatten_all ((s, es) ∷ more) r = flatten_all more (flatten_lane s es r)

  abbrev pub flatten : List (Stream × List Entry) → Queue L → List PageTask × Queue L
  flatten response q = flatten_all response ([], q)

-- `depth`
pub record Depth : Type 0 where
  pub stream_length : ℕ
  pub pending : ℕ
  pub backlog : ℕ

abbrev pub depth_of : (stream_length pending : ℕ) → Depth
depth_of n p = record { stream_length = n; pending = p; backlog = n - p }

unfoldable pub depth : {L : Type 0} → Broker L → Queue L → Depth
depth b q =
    depth_of (b.xlen q.lead_lane + b.xlen q.main_lane)
      (b.pending_count q.lead_lane + b.pending_count q.main_lane)

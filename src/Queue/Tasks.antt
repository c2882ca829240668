-- ===== src/Queue/Tasks.antt =====
-- app/queue/streams.py: a task of the queue, and the fields of a stream entry that carry it. Times
-- are in milliseconds.
pub mod Carried
use package.text.Mathlib.Text.{◌==◌ as str_eq}
use ocr_orchestrator.Common.{
  ℕ, ◌+◌, ◌-◌, Bool, true, false, Option, none, some, List, [], ◌∷◌, String, ◌==◌, if◌then◌else◌,
}

-- The text of a field: the decimal text of a number, which is what `int` accepts and what a number
-- is stored as, or any other text. (A negative number is not told from other text.)
pub data Value : Type 0 where
  number : ℕ → Value
  text : String → Value

abbrev pub Fields : Type 0
Fields = List (String × Value)

-- `STREAM` and `LEAD_STREAM`
pub data Stream : Type 0 where
  lead main : Stream

pub record PageTask : Type 0 where
  pub entry_id : ℕ
  pub job_id : Value
  pub page_index : ℕ
  pub enqueued_at_ms : ℕ
  pub trace_id : Value
  pub recovered : Bool
  pub stream : Stream
  pub attempt : ℕ
  pub first_enqueued_at_ms : ℕ

abbrev pub or_else : ℕ → ℕ → ℕ
or_else a b = if a == 0 then b else a

-- `age_ms` and `lag_ms`
abbrev pub age_ms : ℕ → PageTask → ℕ
age_ms now t = now - or_else t.first_enqueued_at_ms t.enqueued_at_ms

abbrev pub lag_ms : ℕ → PageTask → ℕ
lag_ms now t = now - t.enqueued_at_ms

-- The exceptions that `_parse` raises.
pub data ParseError : Type 0 where
  key_error : String → ParseError
  value_error : String → ParseError

pub data Parsed (A : Type 0) : Type 0 where
  parsed : A → Parsed A
  malformed : ParseError → Parsed A

infixl 5 ◌>>=◌
abbrev pub ◌>>=◌ : {A B : Type 0} → Parsed A → (A → Parsed B) → Parsed B
parsed a >>= f = f a
malformed e >>= f = malformed e

-- `fields.get(key)`
abbrev pub get : String → Fields → Option Value
get k [] = none
get k ((j, v) ∷ m) = if str_eq j k then some v else get k m

-- `fields[key]`
abbrev item : String → Option Value → Parsed Value
item k none = malformed (key_error k)
item k (some v) = parsed v

-- `int(text)`
abbrev int : Value → Parsed ℕ
int (number n) = parsed n
int (text s) = malformed (value_error s)

abbrev get_or : Value → Option Value → Value
get_or v none = v
get_or v (some w) = w

-- `fields.get(first) or fields[second]`: a missing field and the empty text are false.
abbrev get_or_item : Option Value → Parsed Value → Parsed Value
get_or_item none other = other
get_or_item (some (number n)) other = parsed (number n)
get_or_item (some (text s)) other = if str_eq s "" then other else parsed (text s)

-- `_parse`
unfoldable pub parse : Stream → ℕ → Fields → Parsed PageTask
parse stream id fields = do
  job ← item "job_id" (get "job_id" fields)
  index ← int (← item "page_index" (get "page_index" fields))
  let queued = item "enqueued_at_ms" (get "enqueued_at_ms" fields)
  at ← int (← queued)
  tries ← int (get_or (number 0) (get "attempt" fields))
  first ← int (← get_or_item (get "first_enqueued_at_ms" fields) queued)
  parsed (record {
    entry_id = id;
    job_id = job;
    page_index = index;
    enqueued_at_ms = at;
    trace_id = get_or (text "") (get "trace_id" fields);
    recovered = false;
    stream = stream;
    attempt = tries;
    first_enqueued_at_ms = first;
  })

-- The entry that `enqueue_pages` writes for a page.
abbrev pub first_fields : (job trace : Value) → (now index : ℕ) → Fields
first_fields job trace now index =
    ("job_id", job)
    ∷ ("page_index", number index)
    ∷ ("enqueued_at_ms", number now)
    ∷ ("first_enqueued_at_ms", number now)
    ∷ ("trace_id", trace)
    ∷ []

abbrev pub next_attempt : Bool → PageTask → ℕ
next_attempt count_attempt t = if count_attempt then t.attempt + 1 else t.attempt

-- The entry that `requeue` writes for a task.
abbrev pub retry_fields : Bool → ℕ → PageTask → Fields
retry_fields count_attempt now t =
    ("job_id", t.job_id)
    ∷ ("page_index", number t.page_index)
    ∷ ("enqueued_at_ms", number now)
    ∷ ("first_enqueued_at_ms", number (or_else t.first_enqueued_at_ms t.enqueued_at_ms))
    ∷ ("trace_id", t.trace_id)
    ∷ ("attempt", number (next_attempt count_attempt t))
    ∷ []

-- ===== src/Queue/Hashes.antt =====
-- app/queue/state.py, the part in Redis: the hashes of one job and of its pages, and the commands of
-- the transition script on them. Times are in milliseconds.
use text.Mathlib.Text.{◌==◌ as str_eq}
use ocr_orchestrator.Common.{
  ℕ, ◌+◌, ◌*◌, Bool, true, false, Option, none, some, List, [], ◌∷◌, String, ltb, leb,
  if◌then◌else◌, map,
}
use ocr_orchestrator.Queue.State.{PageState, JobState}

-- The hash at `page_key(job_id, index)`: the fields that the store itself writes, and the rest.
-- No caller passes one of the store's own field names in `fields`.
pub record PageHash : Type 0 where
  pub page_index : ℕ
  pub state : PageState
  pub attempts : ℕ
  pub updated_at : ℕ
  pub fields : List (String × String)
  pub expires_at : Option ℕ

-- The hash at `job_key(job_id)`. `none` is a field that is absent, as in a hash that `HSET` or
-- `HINCRBY` made anew.
pub record JobHash : Type 0 where
  pub total_pages : Option ℕ
  pub done_count : Option ℕ
  pub job_state : Option JobState
  pub created_at : Option ℕ
  pub pages_renewed_at : Option ℕ
  pub expires_at : Option ℕ

-- The keys of one job: the page at `index` is the element there, `none` if its key is missing.
pub record Redis : Type 0 where
  pub job : Option JobHash
  pub pages : List (Option PageHash)

-- A key is gone once the server's clock has passed its expiry.
abbrev pub is_alive : ℕ → Option ℕ → Bool
is_alive clock none = true
is_alive clock (some at) = leb clock at

abbrev pub live_page : ℕ → Option PageHash → Option PageHash
live_page clock none = none
live_page clock (some p) = if is_alive clock p.expires_at then some p else none

abbrev pub live_job : ℕ → Option JobHash → Option JobHash
live_job clock none = none
live_job clock (some j) = if is_alive clock j.expires_at then some j else none

unfoldable pub evict : ℕ → Redis → Redis
evict clock r = record { job = live_job clock r.job; pages = map (live_page clock) r.pages }

-- `HSET key field value`
abbrev pub hset : String → String → List (String × String) → List (String × String)
hset k v [] = (k, v) ∷ []
hset k v ((j, w) ∷ m) = if str_eq j k then (k, v) ∷ m else (j, w) ∷ hset k v m

-- The loop over the extra field/value pairs.
abbrev pub hset_all : List (String × String) → List (String × String) → List (String × String)
hset_all [] m = m
hset_all ((k, v) ∷ more) m = hset_all more (hset k v m)

abbrev pub pexpire_page : ℕ → Option PageHash → Option PageHash
pexpire_page at none = none
pexpire_page at (some p) = some (record p { expires_at = some at })

abbrev pub pexpire_job : ℕ → Option JobHash → Option JobHash
pexpire_job at none = none
pexpire_job at (some j) = some (record j { expires_at = some at })

-- A hash with no field yet and no expiry: what a write to a missing key starts from.
abbrev pub new_job : JobHash
new_job = record {
  total_pages = none;
  done_count = none;
  job_state = none;
  created_at = none;
  pages_renewed_at = none;
  expires_at = none;
}

abbrev pub or_new : Option JobHash → JobHash
or_new none = new_job
or_new (some j) = j

abbrev pub or_zero : Option ℕ → ℕ
or_zero none = 0
or_zero (some n) = n

abbrev pub total_of : Option JobHash → Option ℕ
total_of none = none
total_of (some j) = j.total_pages

abbrev pub renewed_of : Option JobHash → ℕ
renewed_of none = 0
renewed_of (some j) = or_zero j.pages_renewed_at

-- `now - last_sweep > ttl_ms / 2`, whose halves are exact.
abbrev pub sweep_due : (ttl now : ℕ) → Option JobHash → Bool
sweep_due ttl now job = ltb (ttl + 2 * renewed_of job) (2 * now)

-- The marker that claims the sweep, `HSET KEYS[2] pages_renewed_at now`.
abbrev pub mark_renewed : (ttl now : ℕ) → Option JobHash → Option JobHash
mark_renewed ttl now job =
    if sweep_due ttl now job
    then some (record (or_new job) { pages_renewed_at = some now })
    else job

-- `HINCRBY KEYS[2] done_count 1`, in a script whose target state is terminal.
abbrev pub count_done : Bool → Option JobHash → Option JobHash
count_done false job = job
count_done true job =
    let j = or_new job in some (record j { done_count = some (or_zero j.done_count + 1) })

abbrev pub done_of : Option JobHash → Option ℕ
done_of none = none
done_of (some j) = j.done_count

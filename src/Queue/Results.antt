-- ===== src/Queue/Results.antt =====
-- app/queue/results.py: the result stream of a job, its publisher and its readers. Redis is a
-- parameter here too. An entry id is the pair of numbers that it is compared by; its text, JSON and
-- the rendering of frames are left out.
pub mod Numbered
pub mod Windows
pub mod Cursors
pub mod InMemory
use ocr_orchestrator.Common.{
  ℕ, suc, ◌+◌, ◌≡◌, Bool, true, false, ◌&&◌, ◌||◌, Option, none, some, List, [], ◌∷◌, ◌++◌, String,
  ltb, leb, ◌==◌, if◌then◌else◌, All, take,
}

-- `id_tuple`
abbrev pub EntryId : Type 0
EntryId = ℕ × ℕ

abbrev pub id_lt : EntryId → EntryId → Bool
id_lt (ms, seq) (ms', seq') = ltb ms ms' || (ms == ms' && ltb seq seq')

pub record ResultEvent : Type 0 where
  pub entry_id : EntryId
  pub seq : ℕ
  pub event : String
  pub data_json : String

-- The entries behind a cursor.
abbrev pub after_id : EntryId → List ResultEvent → List ResultEvent
after_id c [] = []
after_id c (e ∷ es) = if id_lt c e.entry_id then e ∷ after_id c es else after_id c es

abbrev pub drop : {A : Type 0} → ℕ → List A → List A
drop ℕ.zero xs = xs
drop (suc n) [] = []
drop (suc n) (x ∷ xs) = drop n xs

-- The commands on a stream without a group.
pub record Log (R : Type 0) : Type 0 where
  pub entries : R → List ResultEvent
  pub empty : R
  pub xadd_capped : (maxlen seq : ℕ) (event data_json : String) → R → EntryId × R
  pub xrange : Option EntryId → (count : ℕ) → R → List ResultEvent
  pub xrevrange_first : R → Option EntryId
  pub xread : EntryId → (count : ℕ) → R → List ResultEvent

abbrev pub first_id : List ResultEvent → Option EntryId
first_id [] = none
first_id (e ∷ es) = some e.entry_id

abbrev pub last_id : List ResultEvent → Option EntryId
last_id [] = none
last_id (e ∷ []) = some e.entry_id
last_id (e ∷ f ∷ es) = last_id (f ∷ es)

-- `last_id` of the API's loop, behind the events of a read.
abbrev pub last_of : EntryId → List ResultEvent → EntryId
last_of c [] = c
last_of c (e ∷ es) = last_of e.entry_id es

abbrev pub from_start : Option EntryId → List ResultEvent → List ResultEvent
from_start none es = es
from_start (some c) es = after_id c es

-- What is documented of them: an entry gets an id behind all others, and only the oldest go.
pub record Documented {R : Type 0} (g : Log R) : Type 0 where
  pub empty_entries : g.entries g.empty ≡ []
  pub xadd_id :
      (m n : ℕ) (e d : String) (r : R)
      → All (λ x. id_lt x.entry_id (g.xadd_capped m n e d r).0 ≡ true) (g.entries r)
  pub xadd_entries :
      (m n : ℕ) (e d : String) (r : R)
      → let x = g.xadd_capped m n e d r in
        (k : ℕ) × (g.entries x.1
          ≡ drop k
              (g.entries r ++ record { entry_id = x.0; seq = n; event = e; data_json = d } ∷ []))
  pub xrange_lem :
      (c : Option EntryId) (n : ℕ) (r : R) → g.xrange c n r ≡ take n (from_start c (g.entries r))
  pub xrevrange_lem : (r : R) → g.xrevrange_first r ≡ last_id (g.entries r)
  pub xread_lem : (c : EntryId) (n : ℕ) (r : R) → g.xread c n r ≡ take n (after_id c (g.entries r))

-- A key with its expiry.
pub record Key (A : Type 0) : Type 0 where
  pub value : A
  pub expires_at : ℕ

abbrev pub live_or : {A : Type 0} → A → ℕ → Option (Key A) → A
live_or a clock none = a
live_or a clock (some k) = if leb clock k.expires_at then k.value else a

-- `out_stream(job_id)` and `seq_key(job_id)`
pub record Out (R : Type 0) : Type 0 where
  pub stream : Option (Key R)
  pub counter : Option (Key ℕ)

module _ {R : Type 0} (g : Log R) where
  -- `_PUBLISH_LUA`, and `publish`
  unfoldable pub publish :
      (maxlen ttl clock : ℕ) → (event data_json : String) → Out R → ResultEvent × Out R
  publish maxlen ttl clock event data_json o =
      let seq = suc (live_or 0 clock o.counter) in
      let x = g.xadd_capped maxlen seq event data_json (live_or g.empty clock o.stream) in
      (
        record { entry_id = x.0; seq = seq; event = event; data_json = data_json },
        record {
          stream = some (record { value = x.1; expires_at = clock + ttl });
          counter = some (record { value = seq; expires_at = clock + ttl });
        },
      )

  -- `window`
  abbrev pub window : R → Option EntryId × Option EntryId
  window r = (first_id (g.xrange none 1 r), g.xrevrange_first r)

  abbrev pub is_before : EntryId → Option EntryId → Bool
  is_before c none = false
  is_before c (some lo) = id_lt c lo

  unfoldable pub gap_after : R → EntryId → Bool
  gap_after r c = is_before c (window r).0

  unfoldable pub history : Option EntryId → (count : ℕ) → R → List ResultEvent
  history c n r = g.xrange c n r

  unfoldable pub tail : EntryId → (count : ℕ) → R → List ResultEvent
  tail c n r = g.xread c n r

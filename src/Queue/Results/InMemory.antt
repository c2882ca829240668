-- ===== src/Queue/Results/InMemory.antt =====
-- A result stream in memory: the retained events. It meets what is documented of the commands.
use ocr_orchestrator.Common.{
  ℕ, suc, ◌-◌, ◌<◌, refl, max, List, [], ◌∷◌, ◌++◌, String, arith, All, All-map, length, take,
}
use ocr_orchestrator.Queue.Results.{
  ResultEvent, after_id, drop, last_id, from_start, Log, Documented,
}

-- A millisecond that no event has reached.
abbrev next_ms : List ResultEvent → ℕ
next_ms [] = 1
next_ms (e ∷ es) = max (suc e.entry_id.0) (next_ms es)

abbrev event_of : (seq : ℕ) (event data_json : String) → List ResultEvent → ResultEvent
event_of n e d es = record { entry_id = (next_ms es, 0); seq = n; event = e; data_json = d }

abbrev pub in_memory : Log (List ResultEvent)
in_memory = record {
  entries = λ es. es;
  empty = [];
  xadd_capped =
      λ m n e d es. ((next_ms es, 0), drop (suc (length es) - m) (es ++ (event_of n e d es ∷ [])));
  xrange = λ c n es. take n (from_start c es);
  xrevrange_first = last_id;
  xread = λ c n es. take n (after_id c es);
}

below : (k : ℕ) (es : List ResultEvent) → All (λ e. e.entry_id.0 < max k (next_ms es)) es
below k [] = tt
below k (e ∷ es) = (
  omega arith,
  All-map (λ x. x.entry_id.0 < max (max k (suc e.entry_id.0)) (next_ms es)) _ (λ x h. omega arith)
      es (below (max k (suc e.entry_id.0)) es),
)

pub in_memory-Documented : Documented in_memory
in_memory-Documented = record {
  empty_entries = refl;
  xadd_id = λ m n e d es.
      All-map (λ x. x.entry_id.0 < max 0 (next_ms es)) _ (λ x h. ground arith) es (below 0 es);
  xadd_entries = λ m n e d es. (suc (length es) - m, refl);
  xrange_lem = λ c n es. refl;
  xrevrange_lem = λ es. refl;
  xread_lem = λ c n es. refl;
}

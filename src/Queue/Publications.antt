-- ===== src/Queue/Publications.antt =====
-- The theorems on the result stream at a concrete stream.
use ocr_orchestrator.Common.{ℕ, ◌≡◌, refl, true, some, List, [], ◌∷◌, All}
use ocr_orchestrator.Queue.Results.{id_lt, ResultEvent, Out, publish, gap_after, history, tail}
use ocr_orchestrator.Queue.Results.InMemory.{in_memory, in_memory-Documented}
use ocr_orchestrator.Queue.Results.Numbered.{IsNumbered, publish-IsNumbered}
use ocr_orchestrator.Queue.Results.Windows.{no_gap_whole}

abbrev event : ℕ → ResultEvent
event n = record { entry_id = (n, 0); seq = n; event = "page.final"; data_json = "{}" }

-- The first of three events is gone.
abbrev retained : List ResultEvent
retained = event 2 ∷ event 3 ∷ []

abbrev out : Out (List ResultEvent)
out = record {
  stream = some (record { value = retained; expires_at = 100 });
  counter = some (record { value = 3; expires_at = 100 });
}

publish-IsNumbered_example :
    let x = publish in_memory 2 100 50 "job.complete" "{}" out in
    IsNumbered in_memory x.1
    × (x.0.seq ≡ 4)
    × All (λ e. id_lt e.entry_id x.0.entry_id ≡ true) retained
publish-IsNumbered_example =
    publish-IsNumbered in_memory in_memory-Documented 2 100 50 "job.complete" "{}" out
      (refl, ((refl, tt), (tt, tt)), (refl, (refl, tt)))

no_gap_whole_example :
    (history in_memory (some (2, 0)) 10 retained ≡ event 3 ∷ [])
    × (tail in_memory (2, 0) 10 retained ≡ event 3 ∷ [])
unfolding gap_after
no_gap_whole_example =
    no_gap_whole in_memory in_memory-Documented retained (event 1 ∷ retained) 1 (2, 0) 10
      ((refl, (refl, tt)), ((refl, tt), (tt, tt))) refl refl (λ e. cc)

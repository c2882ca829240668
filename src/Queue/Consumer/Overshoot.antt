-- ===== src/Queue/Consumer/Overshoot.antt =====
-- A read of one task that brings two.
use ocr_orchestrator.Common.{ℕ, ◌≡◌, ◌<◌, refl, false, none, some, List, [], ◌∷◌, ◌==◌, arith}
use ocr_orchestrator.Queue.Tasks.{Fields, Stream, lead, main, PageTask, parsed, parse}
use ocr_orchestrator.Queue.Broker.{Broker}
use ocr_orchestrator.Queue.Streams.{Queue, Env, lane, set_lane, flatten_lane, flatten_all}
use ocr_orchestrator.Queue.Consumer.{read, read_lanes}

module _ {L : Type 0} (b : Broker L) (v : Env L) where
  abbrev pub probe : (at : ℕ) → Stream → Queue L → List (ℕ × Fields)
  probe at s q = (b.read_new v.consumer 1 (v.now at) (lane s (v.meanwhile at q))).0

  abbrev pub behind : (at : ℕ) → Stream → Queue L → Queue L
  behind at s q =
      let q' = v.meanwhile at q in set_lane s (b.read_new v.consumer 1 (v.now at) (lane s q')).1 q'

  -- `read(count=1)` returns two tasks whenever both lanes are empty at first, the read may wait, and
  -- both lanes have a task when the wait ends.
  pub read_one_overshoots :
      (block : ℕ) (q : Queue L) (i j : ℕ) (f g : Fields) (t u : PageTask)
      → 0 < block
      → ((n : ℕ) → v.fault n ≡ none)
      → probe 0 lead q ≡ []
      → probe 1 main (behind 0 lead q) ≡ []
      → let waited = v.meanwhile 2 (behind 1 main (behind 0 lead q)) in
        (b.read_new v.consumer 1 (v.now 2) waited.lead_lane).0 ≡ (i, f) ∷ []
        → (b.read_new v.consumer 1 (v.now 2) waited.main_lane).0 ≡ (j, g) ∷ []
        → parse lead i f ≡ parsed t
        → parse main j g ≡ parsed u
        → (read b v block (some 1) 0 0 0 q).0 ≡ some (t ∷ u ∷ [])
  unfolding read read_lanes flatten_all flatten_lane
  read_one_overshoots block q i j f g t u wait ok p0 p1 p2 p3 e e' =
      let waits : (block == 0) ≡ false = ground arith in
      rw (ok 0, p0, ok 1, p1, waits, ok 2, p2, p3, e, e') refl

-- ===== src/Queue/Consumer/Quarantine.antt =====
-- Every entry of a reply is accounted for.
use ocr_orchestrator.Common.{
  ℕ, zero, suc, ◌+◌, ◌≤◌, ◌≡◌, refl, ◌∙◌, List, [], ◌∷◌, arith, length, length-append,
}
use ocr_orchestrator.Queue.Tasks.{
  Fields, Stream, lead, main, PageTask, ParseError, Parsed, parsed, malformed, parse,
}
use ocr_orchestrator.Queue.Broker.{Broker, Entry}
use ocr_orchestrator.Queue.Streams.{
  Queue, Env, pipeline, ack, add_poison, count_poison, poison_fields, quarantine, sort_entry,
  flatten_lane, flatten_all,
}
use ocr_orchestrator.Queue.Streams.Requeue.{status}
use ocr_orchestrator.Queue.Consumer.{Answer, taken}

module _ {L : Type 0} (b : Broker L) where
  abbrev pub audited : ℕ → Fields → Queue L → Queue L
  audited n f q = pipeline b n (add_poison f ∷ count_poison ∷ []) q

  audited_total :
      (n : ℕ) (f : Fields) (q : Queue L) → 2 ≤ n → (audited n f q).poison_total ≡ suc q.poison_total
  unfolding pipeline
  audited_total zero f q h = absurd (omega arith)
  audited_total (suc zero) f q h = absurd (omega arith)
  audited_total (suc (suc zero)) f q h = refl
  audited_total (suc (suc (suc n))) f q h = refl

  pub status-audited :
      (n : ℕ) (f : Fields) (q : Queue L) (s : Stream) (i : ℕ)
      → status b (audited n f q) s i ≡ status b q s i
  unfolding pipeline
  status-audited zero f q s i = refl
  status-audited (suc zero) f q lead i = refl
  status-audited (suc zero) f q main i = refl
  status-audited (suc (suc zero)) f q lead i = refl
  status-audited (suc (suc zero)) f q main i = refl
  status-audited (suc (suc (suc n))) f q lead i = refl
  status-audited (suc (suc (suc n))) f q main i = refl

  ack_total : (s : Stream) (i : ℕ) (q : Queue L) → (ack b s i q).poison_total ≡ q.poison_total
  unfolding pipeline
  ack_total lead i q = refl
  ack_total main i q = refl

module _ {L : Type 0} (b : Broker L) (v : Env L) (recorded : (i : ℕ) → 2 ≤ v.written i) where
  quarantine_total :
      (s : Stream) (i : ℕ) (f : Fields) (e : ParseError) (q : Queue L)
      → (quarantine b v s i f e q).poison_total ≡ suc q.poison_total
  quarantine_total s i f e q =
      ack_total b s i (audited b (v.written i) (poison_fields s i f (v.describe e)) q)
      ∙ audited_total b (v.written i) (poison_fields s i f (v.describe e)) q (recorded i)

  Accounts : (n : ℕ) → List PageTask × Queue L → List PageTask × Queue L → Type 0
  Accounts n x y = length y.0 + y.1.poison_total ≡ length x.0 + x.1.poison_total + n

  Accounts-entry :
      (s : Stream) (i : ℕ) (f : Fields) (p : Parsed PageTask) (x : List PageTask × Queue L)
      → Accounts 1 x (sort_entry b v s i f p x)
  unfolding Accounts
  Accounts-entry s i f (parsed t) (ts, q) = omega (arith, length-append ts (t ∷ []))
  Accounts-entry s i f (malformed e) (ts, q) = omega (arith, quarantine_total s i f e q)

  Accounts-lane :
      (s : Stream) (es : List Entry) (x : List PageTask × Queue L)
      → Accounts (length es) x (flatten_lane b v s es x)
  unfolding flatten_lane Accounts
  Accounts-lane s [] x = omega arith
  Accounts-lane s ((i, f) ∷ es) x =
      let y = sort_entry b v s i f (parse s i f) x in
      omega (arith, Accounts-entry s i f (parse s i f) x, Accounts-lane s es y)

  -- Every entry of a reply becomes a task or is counted as poison, if the counter can be written.
  pub flatten_accounts :
      (r : Answer) (x : List PageTask × Queue L)
      → length (flatten_all b v r x).0 + (flatten_all b v r x).1.poison_total
        ≡ length x.0 + x.1.poison_total + taken r
  unfolding flatten_all Accounts
  flatten_accounts [] x = omega arith
  flatten_accounts ((s, es) ∷ more) x =
      omega (arith, Accounts-lane s es x, flatten_accounts more (flatten_lane b v s es x))

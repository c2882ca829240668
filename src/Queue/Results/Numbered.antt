-- ===== src/Queue/Results/Numbered.antt =====
-- The numbers and the order of the events of a job.
use ocr_orchestrator.Common.{
  ℕ, zero, suc, ◌+◌, ◌≡◌, refl, sym, true, Option, none, some, List, [], ◌∷◌, ◌++◌, String, arith,
  All, leb, length, length-append, Bool-cases, inl, inr,
}
use ocr_orchestrator.Queue.Results.{
  id_lt, ResultEvent, drop, Log, Documented, Key, live_or, Out, publish,
}

-- Ids rise, and the numbers run up to `last` without a hole.
abbrev pub Increasing : List ResultEvent → Type 0
Increasing [] = Unit
Increasing (e ∷ es) = All (λ x. id_lt e.entry_id x.entry_id ≡ true) es × Increasing es

abbrev pub Consecutive : ℕ → List ResultEvent → Type 0
Consecutive last [] = Unit
Consecutive last (e ∷ es) = (e.seq + length es ≡ last) × Consecutive last es

pub Increasing-drop : (n : ℕ) (es : List ResultEvent) → Increasing es → Increasing (drop n es)
Increasing-drop zero es h = h
Increasing-drop (suc n) [] h = h
Increasing-drop (suc n) (e ∷ es) h = Increasing-drop n es h.1

Consecutive-drop :
    (last n : ℕ) (es : List ResultEvent) → Consecutive last es → Consecutive last (drop n es)
Consecutive-drop last zero es h = h
Consecutive-drop last (suc n) [] h = h
Consecutive-drop last (suc n) (e ∷ es) h = Consecutive-drop last n es h.1

Increasing-snoc :
    (es : List ResultEvent) (x : ResultEvent)
    → Increasing es
    → All (λ e. id_lt e.entry_id x.entry_id ≡ true) es
    → Increasing (es ++ x ∷ [])
Increasing-snoc [] x h k = (tt, tt)
Increasing-snoc (e ∷ es) x h k =
    (All-snoc (λ y. id_lt e.entry_id y.entry_id ≡ true) es x h.0 k.0, Increasing-snoc es x h.1 k.1)
  where
    All-snoc :
        (P : ResultEvent → Type 0) (xs : List ResultEvent) (y : ResultEvent)
        → All P xs
        → P y
        → All P (xs ++ y ∷ [])
    All-snoc P [] y a p = (p, tt)
    All-snoc P (z ∷ zs) y a p = (a.0, All-snoc P zs y a.1 p)

Consecutive-snoc :
    (last : ℕ) (es : List ResultEvent) (x : ResultEvent)
    → Consecutive last es
    → x.seq ≡ suc last
    → Consecutive (suc last) (es ++ x ∷ [])
Consecutive-snoc last [] x h k = (omega (arith, k), tt)
Consecutive-snoc last (e ∷ es) x h k =
    (omega (arith, h.0, length-append es (x ∷ [])), Consecutive-snoc last es x h.1 k)

module _ {R : Type 0} (g : Log R) where
  abbrev pub HaveKeys : Option (Key R) → Option (Key ℕ) → Type 0
  HaveKeys none none = Unit
  HaveKeys (some s) (some c) =
      (s.expires_at ≡ c.expires_at)
      × Increasing (g.entries s.value)
      × Consecutive c.value (g.entries s.value)
  HaveKeys _ _ = ⊥

  -- The stream and the counter expire together, and the entries are numbered up to the counter.
  abbrev pub IsNumbered : Out R → Type 0
  IsNumbered o = HaveKeys o.stream o.counter

  -- Of a stream and its counter as a script finds them.
  abbrev pub Ordered : R → ℕ → Type 0
  Ordered r n = Increasing (g.entries r) × Consecutive n (g.entries r)

  abbrev pub snapshot : ℕ → Out R → R × ℕ
  snapshot clock o = (live_or g.empty clock o.stream, live_or 0 clock o.counter)

  module _ (docs : Documented g) where
    empty-Ordered : (n : ℕ) → Ordered g.empty n
    empty-Ordered n = rw docs.empty_entries (tt, tt)

    snapshot-Ordered :
        (clock : ℕ) (s : Option (Key R)) (c : Option (Key ℕ))
        → HaveKeys s c
        → Ordered (live_or g.empty clock s) (live_or 0 clock c)
    snapshot-Ordered clock none none h = empty-Ordered 0
    snapshot-Ordered clock (some s) none h = absurd h
    snapshot-Ordered clock none (some c) h = absurd h
    snapshot-Ordered clock (some s) (some c) h = elim (Bool-cases (leb clock s.expires_at)) [
      | inl e ↦ rw (sym h.0) (rw e (h.1, h.2))
      | inr e ↦ rw (sym h.0) (rw e (empty-Ordered 0))
    ]

    appended-Ordered :
        (m n : ℕ) (e d : String) (r : R)
        → Ordered r n
        → Ordered (g.xadd_capped m (suc n) e d r).1 (suc n)
    appended-Ordered m n e d r h =
        let x = g.xadd_capped m (suc n) e d r in
        let new : ResultEvent = record { entry_id = x.0; seq = suc n; event = e; data_json = d } in
        let kept = docs.xadd_entries m (suc n) e d r in
        rw kept.1 (
          Increasing-drop kept.0 _
              (Increasing-snoc (g.entries r) new h.0 (docs.xadd_id m (suc n) e d r)),
          Consecutive-drop (suc n) kept.0 _ (Consecutive-snoc n (g.entries r) new h.1 refl),
        )

    -- Publishing keeps the stream of a job in order: the ids of the retained events rise, their
    -- numbers run without a hole up to the counter, and both keys expire together. The event gets the
    -- next number, and an id behind every retained one.
    pub publish-IsNumbered :
        (maxlen ttl clock : ℕ) (event data_json : String) (o : Out R)
        → IsNumbered o
        → let x = publish g maxlen ttl clock event data_json o in
          IsNumbered x.1
          × (x.0.seq ≡ suc (snapshot clock o).1)
          × All (λ e. id_lt e.entry_id x.0.entry_id ≡ true) (g.entries (snapshot clock o).0)
    unfolding publish
    publish-IsNumbered maxlen ttl clock event data_json o h =
        let (r, n) = snapshot clock o in
        let kept =
          appended-Ordered maxlen n event data_json r
            (snapshot-Ordered clock o.stream o.counter h) in
        ((refl, kept.0, kept.1), refl, docs.xadd_id maxlen (suc n) event data_json r)

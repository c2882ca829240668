-- ===== src/Queue/Results/Windows.antt =====
-- What a cursor misses.
use mathlib.Core.Path.{subst}
use ocr_orchestrator.Common.{
  ℕ, zero, suc, ◌≡◌, ◌≢◌, ◌⊎◌, refl, sym, ap, ◌∙◌, true, false, none, some, List, [], ◌∷◌, arith,
  All, All-map, take, inl, inr,
}
use ocr_orchestrator.Queue.Results.{
  EntryId, id_lt, ResultEvent, after_id, drop, first_id, Log, Documented, gap_after, is_before,
  history, tail,
}
use ocr_orchestrator.Queue.Results.Numbered.{Increasing, Increasing-drop}

pub id_lt_trans : (a b c : EntryId) → id_lt a b ≡ true → id_lt b c ≡ true → id_lt a c ≡ true
id_lt_trans a b c h k = ground arith

pub id_lt_irrefl : (a : EntryId) → id_lt a a ≡ false
id_lt_irrefl a = ground arith

pub id_lt_total : (a b : EntryId) → id_lt a b ≡ false → id_lt b a ≡ false → a ≡ b
id_lt_total a b h k = ground arith

-- An event with this id.
abbrev pub HasId : EntryId → List ResultEvent → Type 0
HasId c [] = ⊥
HasId c (e ∷ es) = (e.entry_id ≡ c) ⊎ HasId c es

-- All of a list that starts behind a cursor is behind it.
pub after_all :
    (c : EntryId) (es : List ResultEvent)
    → All (λ e. id_lt c e.entry_id ≡ true) es
    → after_id c es ≡ es
after_all c [] h = refl
after_all c (e ∷ es) h = rw h.0 (ap (λ r. e ∷ r) (after_all c es h.1))

All-drop : (P : ResultEvent → Type 0) (n : ℕ) (es : List ResultEvent) → All P es → All P (drop n es)
All-drop P zero es h = h
All-drop P (suc n) [] h = h
All-drop P (suc n) (e ∷ es) h = All-drop P n es h.1

-- What was trimmed lies before a cursor that is not before the first retained event.
nothing_missed :
    (c : EntryId) (n : ℕ) (es : List ResultEvent) (x : ResultEvent) (rest : List ResultEvent)
    → Increasing es
    → drop n es ≡ x ∷ rest
    → id_lt c x.entry_id ≡ false
    → after_id c es ≡ after_id c (drop n es)
nothing_missed c zero es x rest up e h = refl
nothing_missed c (suc n) [] x rest up e h = refl
nothing_missed c (suc n) (y ∷ es) x rest up e h =
    let later =
      subst (All (λ z. id_lt y.entry_id z.entry_id ≡ true)) e
        (All-drop (λ z. id_lt y.entry_id z.entry_id ≡ true) n es up.0) in
    let before : id_lt c y.entry_id ≡ false = not_before c y.entry_id x.entry_id later.0 h in
    rw before (nothing_missed c n es x rest up.1 e h)
  where
    not_before : (a b d : EntryId) → id_lt b d ≡ true → id_lt a d ≡ false → id_lt a b ≡ false
    not_before a b d p q = ground arith

clash : (a b : EntryId) → id_lt a b ≡ true → b ≡ a → ⊥
clash a b p q = ground arith

absent_from :
    (c : EntryId) (es : List ResultEvent) → All (λ z. id_lt c z.entry_id ≡ true) es → HasId c es → ⊥
absent_from c [] k m = m
absent_from c (z ∷ zs) k (inl e) = clash c z.entry_id k.0 e
absent_from c (z ∷ zs) k (inr m) = absent_from c zs k.1 m

-- A cursor before the first event of a list is the id of none of them.
not_retained :
    (c : EntryId) (x : ResultEvent) (es : List ResultEvent)
    → Increasing (x ∷ es)
    → id_lt c x.entry_id ≡ true
    → HasId c (x ∷ es)
    → ⊥
not_retained c x es up h =
    absent_from c (x ∷ es) (h, All-map _ _ (λ z. id_lt_trans c x.entry_id z.entry_id h) es up.0)

module _ {R : Type 0} (g : Log R) (docs : Documented g) where
  window_first : (r : R) → first_id (g.xrange none 1 r) ≡ first_id (g.entries r)
  window_first r = rw (docs.xrange_lem none 1 r) (first_take (g.entries r))
    where
      first_take : (es : List ResultEvent) → first_id (take 1 es) ≡ first_id es
      first_take [] = refl
      first_take (e ∷ es) = refl

  missed_none :
      (published : List ResultEvent) (trimmed : ℕ) (c : EntryId) (es : List ResultEvent)
      → Increasing published
      → es ≡ drop trimmed published
      → is_before g c (first_id es) ≡ false
      → es ≢ []
      → after_id c es ≡ after_id c published
  missed_none published trimmed c [] up e h k = absurd (k refl)
  missed_none published trimmed c (x ∷ rest) up e h k =
      ap (after_id c) e ∙ sym (nothing_missed c trimmed published x rest up (sym e) h)

  stale :
      (c : EntryId) (es : List ResultEvent)
      → Increasing es
      → is_before g c (first_id es) ≡ true
      → HasId c es
      → ⊥
  stale c [] up h m = m
  stale c (x ∷ es) up h m = not_retained c x es up h m

  -- If no gap is reported and something is retained, the history behind a cursor is what was
  -- published behind it, up to the count, and so is the tail. The events were published in rising
  -- order, and any number of the oldest are gone.
  pub no_gap_whole :
      (r : R) (published : List ResultEvent) (trimmed : ℕ) (c : EntryId) (count : ℕ)
      → Increasing published
      → g.entries r ≡ drop trimmed published
      → gap_after g r c ≡ false
      → g.entries r ≢ []
      → (history g (some c) count r ≡ take count (after_id c published))
        × (tail g c count r ≡ take count (after_id c published))
  unfolding gap_after history tail
  no_gap_whole r published trimmed c count up e h k =
      let same =
        missed_none published trimmed c (g.entries r) up e
          (sym (ap (is_before g c) (window_first r)) ∙ h) k in
      (
        docs.xrange_lem (some c) count r ∙ ap (take count) same,
        docs.xread_lem c count r ∙ ap (take count) same,
      )

  -- If a gap is reported, the event of the cursor is not retained.
  pub gap_trimmed :
      (r : R) (published : List ResultEvent) (trimmed : ℕ) (c : EntryId)
      → Increasing published
      → g.entries r ≡ drop trimmed published
      → gap_after g r c ≡ true
      → ¬ HasId c (g.entries r)
  unfolding gap_after
  gap_trimmed r published trimmed c up e h =
      stale c (g.entries r) (subst Increasing (sym e) (Increasing-drop trimmed published up))
        (sym (ap (is_before g c) (window_first r)) ∙ h)

-- ===== src/Queue/Results/Cursors.antt =====
-- What is left behind a cursor that moves on through the events.
use mathlib.Core.Path.{subst}
use ocr_orchestrator.Common.{
  ℕ, zero, suc, ◌≡◌, refl, sym, ap, ◌∙◌, true, false, List, [], ◌∷◌, ◌++◌, arith, All, take,
  Bool-cases, inl, inr,
}
use ocr_orchestrator.Queue.Results.{EntryId, id_lt, ResultEvent, after_id, last_of}
use ocr_orchestrator.Queue.Results.Numbered.{Increasing}
use ocr_orchestrator.Queue.Results.Windows.{id_lt_trans, id_lt_irrefl, after_all}

-- `xs` are the first of `ys`.
abbrev pub IsPrefix : List ResultEvent → List ResultEvent → Type 0
IsPrefix xs ys = (rest : List ResultEvent) × (xs ++ rest ≡ ys)

pub take-IsPrefix : (n : ℕ) (xs ys : List ResultEvent) → IsPrefix xs ys → IsPrefix (take n xs) ys
take-IsPrefix zero xs ys p = (ys, refl)
take-IsPrefix (suc n) [] ys p = p
take-IsPrefix (suc n) (x ∷ xs) ys (rest, e) =
    let shorter = take-IsPrefix n xs (xs ++ rest) (rest, refl) in
    (shorter.0, ap (λ r. x ∷ r) shorter.1 ∙ e)

pub after-take-IsPrefix :
    (c : EntryId) (k : ℕ) (es : List ResultEvent)
    → IsPrefix (after_id c (take k es)) (after_id c es)
after-take-IsPrefix c zero es = (after_id c es, refl)
after-take-IsPrefix c (suc k) [] = ([], refl)
after-take-IsPrefix c (suc k) (e ∷ es) =
    let rest = after-take-IsPrefix c k es in
    elim (Bool-cases (id_lt c e.entry_id)) [
      | inl b ↦ (rest.0, rw b (ap (λ r. e ∷ r) rest.1))
      | inr b ↦ (rest.0, rw b rest.1)
    ]

asymmetric : (a b : EntryId) → id_lt a b ≡ true → id_lt b a ≡ false
asymmetric a b h = ground arith

last_of-lt :
    (c d : EntryId) (es : List ResultEvent)
    → id_lt c d ≡ true
    → All (λ z. id_lt c z.entry_id ≡ true) es
    → id_lt c (last_of d es) ≡ true
last_of-lt c d [] h k = h
last_of-lt c d (e ∷ es) h k = last_of-lt c e.entry_id es k.0 k.1

All-left : (P : ResultEvent → Type 0) (xs ys : List ResultEvent) → All P (xs ++ ys) → All P xs
All-left P [] ys h = tt
All-left P (x ∷ xs) ys h = (h.0, All-left P xs ys h.1)

-- Behind the last of the first events there are the others.
after-last_of :
    (e : ResultEvent) (es rest : List ResultEvent)
    → Increasing (e ∷ (es ++ rest))
    → after_id (last_of e.entry_id es) (e ∷ (es ++ rest)) ≡ rest
after-last_of e [] rest up = rw (id_lt_irrefl e.entry_id) (after_all e.entry_id rest up.0)
after-last_of e (f ∷ es) rest up =
    let later = All-left _ es rest up.0.1 in
    let below =
      asymmetric e.entry_id (last_of f.entry_id es)
        (last_of-lt e.entry_id f.entry_id es up.0.0 later) in
    rw below (after-last_of f es rest up.1)

after_id-Increasing :
    (c : EntryId) (es : List ResultEvent) → Increasing es → Increasing (after_id c es)
after_id-Increasing c [] up = tt
after_id-Increasing c (e ∷ es) up = elim (Bool-cases (id_lt c e.entry_id)) [
  | inl b ↦ rw b (after_id-All c e.entry_id es up.0, after_id-Increasing c es up.1)
  | inr b ↦ rw b (after_id-Increasing c es up.1)
]
  where
    after_id-All :
        (c d : EntryId) (es : List ResultEvent)
        → All (λ z. id_lt d z.entry_id ≡ true) es
        → All (λ z. id_lt d z.entry_id ≡ true) (after_id c es)
    after_id-All c d [] h = tt
    after_id-All c d (z ∷ zs) h = elim (Bool-cases (id_lt c z.entry_id)) [
      | inl b ↦ rw b (h.0, after_id-All c d zs h.1)
      | inr b ↦ rw b (after_id-All c d zs h.1)
    ]

-- A later cursor looks behind an earlier one.
after-after :
    (c d : EntryId) (es : List ResultEvent)
    → id_lt c d ≡ true
    → after_id d (after_id c es) ≡ after_id d es
after-after c d [] h = refl
after-after c d (e ∷ es) h = ground (arith, after-after c d es h, id_lt_trans c d e.entry_id h)

after_id-behind :
    (c : EntryId) (es : List ResultEvent) → All (λ z. id_lt c z.entry_id ≡ true) (after_id c es)
after_id-behind c [] = tt
after_id-behind c (e ∷ es) = elim (Bool-cases (id_lt c e.entry_id)) [
  | inl b ↦ rw b (b, after_id-behind c es)
  | inr b ↦ rw b (after_id-behind c es)
]

-- What is left behind a cursor once its first events are read.
pub left_over :
    (c : EntryId) (es rest all : List ResultEvent)
    → Increasing all
    → es ++ rest ≡ after_id c all
    → after_id (last_of c es) all ≡ rest
left_over c [] rest all up e = sym e
left_over c (x ∷ es) rest all up e =
    let behind = subst (All (λ z. id_lt c z.entry_id ≡ true)) (sym e) (after_id-behind c all) in
    let later = last_of-lt c x.entry_id es behind.0 (All-left _ es rest behind.1) in
    sym (after-after c (last_of x.entry_id es) all later)
    ∙ (ap (after_id (last_of x.entry_id es)) (sym e)
        ∙ after-last_of x es rest (subst Increasing (sym e) (after_id-Increasing c all up)))

-- ===== src/Eval/Graphemes/Split.antt =====
-- Where a text is cut into grapheme clusters, and that nothing of it is lost.
use mathlib.Core.List.{append_assoc, flatten}
use ocr_orchestrator.Common.{
  ℕ, ◌≡◌, refl, sym, ap, ◌∙◌, inl, inr, Bool, ◌||◌, List, [], ◌∷◌, ◌++◌, ◌==◌, if◌then◌else◌, All,
  Bool-cases, ◌<◌, length, arith,
}
use ocr_orchestrator.Eval.Graphemes.{
  Unicode, zwj, zwnj, joins_following, extends, extend_last, grow, graphemes,
}

-- The second of two code points in a row belongs to the cluster of the first.
abbrev pub attached : Unicode → ℕ → ℕ → Bool
attached u a b = joins_following u a || ((b == zwj || b == zwnj) || u.is_mark b)

abbrev pub prepend : List ℕ → List (List ℕ) → List (List ℕ)
prepend k [] = k ∷ []
prepend k (c ∷ cs) = (k ++ c) ∷ cs

-- The clusters, read off from the end: a text is cut between two code points exactly if the second
-- is not attached to the first.
unfoldable pub segments : Unicode → List ℕ → List (List ℕ)
segments u [] = []
segments u (a ∷ []) = (a ∷ []) ∷ []
segments u (a ∷ b ∷ text) =
    let rest = segments u (b ∷ text) in
    if attached u a b then prepend (a ∷ []) rest else (a ∷ []) ∷ rest

extends_after :
    (u : Unicode) (d : List (List ℕ)) (x : List ℕ) (a b : ℕ)
    → extends u (d ++ (x ∷ [])) (joins_following u a) b ≡ attached u a b
extends_after u [] x a b = refl
extends_after u (c ∷ d) x a b = refl

extend_last-append :
    (d : List (List ℕ)) (x : List ℕ) (ch : ℕ)
    → extend_last (d ++ (x ∷ [])) ch ≡ d ++ ((x ++ (ch ∷ [])) ∷ [])
extend_last-append [] x ch = refl
extend_last-append (c ∷ []) x ch = refl
extend_last-append (c ∷ e ∷ d) x ch = ap (λ r. c ∷ r) (extend_last-append (e ∷ d) x ch)

prepend-prepend : (k l : List ℕ) (s : List (List ℕ)) → prepend k (prepend l s) ≡ prepend (k ++ l) s
prepend-prepend k l [] = refl
prepend-prepend k l (c ∷ cs) = ap (λ r. r ∷ cs) (sym (append_assoc k l c))

prepend_nothing :
    (u : Unicode) (a : ℕ) (t : List ℕ) → prepend [] (segments u (a ∷ t)) ≡ segments u (a ∷ t)
unfolding segments
prepend_nothing u a [] = refl
prepend_nothing u a (b ∷ t) = elim (Bool-cases (attached u a b)) [
  | inl joined ↦ rw joined (prepend-prepend [] (a ∷ []) (segments u (b ∷ t)))
  | inr apart ↦ rw apart refl
]

-- The clusters `d` are closed, `k` and `a` are in the open one.
grow-segments :
    (u : Unicode) (text : List ℕ) (d : List (List ℕ)) (k : List ℕ) (a : ℕ)
    → grow u text (d ++ ((k ++ (a ∷ [])) ∷ [])) (joins_following u a)
      ≡ d ++ prepend k (segments u (a ∷ text))
unfolding grow segments
grow-segments u [] d k a = refl
grow-segments u (b ∷ text) d k a = elim (Bool-cases (attached u a b)) [
  | inl joined ↦
      rw (extends_after u d (k ++ (a ∷ [])) a b, joined, extend_last-append d (k ++ (a ∷ [])) b)
        (grow-segments u text d (k ++ (a ∷ [])) b
          ∙ ap (λ r. d ++ r) (sym (prepend-prepend k (a ∷ []) (segments u (b ∷ text)))))
  | inr apart ↦
      rw (extends_after u d (k ++ (a ∷ [])) a b, apart)
        (grow-segments u text (d ++ ((k ++ (a ∷ [])) ∷ [])) [] b
          ∙ ap (λ r. (d ++ ((k ++ (a ∷ [])) ∷ [])) ++ r) (prepend_nothing u b text)
          ∙ append_assoc d ((k ++ (a ∷ [])) ∷ []) (segments u (b ∷ text)))
]

-- The loop cuts a text exactly where the second of two code points is not attached to the first.
pub graphemes-segments : (u : Unicode) (text : List ℕ) → graphemes u text ≡ segments u text
unfolding graphemes grow segments
graphemes-segments u [] = refl
graphemes-segments u (a ∷ text) = grow-segments u text [] [] a ∙ prepend_nothing u a text

flatten-prepend : (k : List ℕ) (s : List (List ℕ)) → flatten (prepend k s) ≡ k ++ flatten s
unfolding flatten
flatten-prepend k [] = refl
flatten-prepend k (c ∷ cs) = append_assoc k c (flatten cs)

flatten-segments : (u : Unicode) (text : List ℕ) → flatten (segments u text) ≡ text
unfolding flatten segments
flatten-segments u [] = refl
flatten-segments u (a ∷ []) = refl
flatten-segments u (a ∷ b ∷ text) = elim (Bool-cases (attached u a b)) [
  | inl joined ↦ rw joined (
      flatten-prepend (a ∷ []) (segments u (b ∷ text))
      ∙ ap (λ r. a ∷ r) (flatten-segments u (b ∷ text)))
  | inr apart ↦ rw apart (ap (λ r. a ∷ r) (flatten-segments u (b ∷ text)))
]

abbrev pub AllNonEmpty : List (List ℕ) → Type 0
AllNonEmpty cs = All (λ (c : List ℕ). 0 < length c) cs

prepend-AllNonEmpty : (a : ℕ) (s : List (List ℕ)) → AllNonEmpty s → AllNonEmpty (prepend (a ∷ []) s)
prepend-AllNonEmpty a [] h = (omega arith, tt)
prepend-AllNonEmpty a (c ∷ cs) h = (omega arith, h.1)

segments-AllNonEmpty : (u : Unicode) (text : List ℕ) → AllNonEmpty (segments u text)
unfolding segments
segments-AllNonEmpty u [] = tt
segments-AllNonEmpty u (a ∷ []) = (omega arith, tt)
segments-AllNonEmpty u (a ∷ b ∷ text) =
    let rest = segments-AllNonEmpty u (b ∷ text) in
    elim (Bool-cases (attached u a b)) [
      | inl joined ↦ rw joined (prepend-AllNonEmpty a (segments u (b ∷ text)) rest)
      | inr apart ↦ rw apart (omega arith, rest)
    ]

-- The clusters make up the text, and none of them is empty.
pub graphemes-flatten :
    (u : Unicode) (text : List ℕ)
    → (flatten (graphemes u text) ≡ text) × AllNonEmpty (graphemes u text)
graphemes-flatten u text =
    rw (graphemes-segments u text) (flatten-segments u text, segments-AllNonEmpty u text)

-- ===== src/Eval/Score/Exact.antt =====
-- What a score of no errors means, and an empty reference.
use mathlib.Core.List.{flatten}
use mathlib.Core.Path.{ap₂}
use ocr_orchestrator.Common.{
  ℕ, ◌≡◌, refl, sym, ap, ◌∙◌, ◌↔◌, Bool, true, false, some, List, [], ◌∷◌, arith, length, map,
}
use ocr_orchestrator.Eval.Text.{Units, differs}
use ocr_orchestrator.Eval.Text.Edit.{Edit, cost, done, delete, insert, substitute, moved}
use ocr_orchestrator.Eval.Text.Rows.{Cheapest, levenshtein-least}
use ocr_orchestrator.Eval.Graphemes.{Unicode, graphemes}
use ocr_orchestrator.Eval.Graphemes.Split.{graphemes-flatten}
use ocr_orchestrator.Eval.Score.{
  UnitName, grapheme, codepoint, word, no_unit, strings, units, words, TextScore, cer_score,
  wer_score,
}

module _ {ℓ} {A : Type ℓ} (u : Units A) where
  differs_zero : (x y : A) → differs u x y ≡ 0 → x ≡ y
  differs_zero x y e = ground (arith, u.same_iff x y)

  differs_self : (x : A) → differs u x x ≡ 0
  differs_self x = ground (arith, u.same_iff x x)

  cost_zero : {xs ys : List A} (e : Edit u xs ys) → cost u e ≡ 0 → xs ≡ ys
  unfolding cost
  cost_zero done h = refl
  cost_zero (delete x e) h = ground arith
  cost_zero (insert y e) h = ground arith
  cost_zero (substitute x y e) h =
      ap₂ (λ z zs. z ∷ zs) (differs_zero x y (omega arith)) (cost_zero e (omega arith))

  unchanged : (xs : List A) → (e : Edit u xs xs) × (cost u e ≡ 0)
  unfolding cost
  unchanged [] = (done, refl)
  unchanged (x ∷ xs) =
      let (e, p) = unchanged xs in (substitute x x e, omega (arith, differs_self x))

  Cheapest-zero : (xs ys : List A) (d : ℕ) → Cheapest u xs ys d → (d ≡ 0) ↔ (xs ≡ ys)
  Cheapest-zero xs ys d c = (
    λ h. cost_zero c.0.0 (c.0.1 ∙ h),
    λ p. let (e, q) = unchanged xs in let (f, r) = moved u refl p e q in omega (arith, c.1 f, r),
  )

flatten-singletons : (text : List ℕ) → flatten (map (λ c. c ∷ []) text) ≡ text
unfolding flatten
flatten-singletons [] = refl
flatten-singletons (c ∷ text) = ap (λ r. c ∷ r) (flatten-singletons text)

abbrev pub is_character : UnitName → Bool
is_character grapheme = true
is_character codepoint = true
is_character word = false
is_character no_unit = false

-- A text is cut into units that make it up.
units_of :
    (u : Unicode) (unit : UnitName) (text : List ℕ)
    → is_character unit ≡ true
    → (us : List (List ℕ)) × (units u unit text ≡ some us) × (flatten us ≡ text)
unfolding units
units_of u grapheme text h = (graphemes u text, refl, (graphemes-flatten u text).0)
units_of u codepoint text h = (map (λ c. c ∷ []) text, refl, flatten-singletons text)
units_of u word text h = ground arith
units_of u no_unit text h = ground arith

nothing_flat : (us : List (List ℕ)) → length us ≡ 0 → flatten us ≡ []
unfolding flatten
nothing_flat [] h = refl
nothing_flat (c ∷ us) h = ground arith

units_empty :
    (u : Unicode) (unit : UnitName) (text : List ℕ) (us : List (List ℕ))
    → units u unit text ≡ some us
    → text ≡ []
    → length us ≡ 0
unfolding units graphemes
units_empty u grapheme [] us e p = ground arith
units_empty u codepoint [] us e p = ground arith
units_empty u word [] us e p = ground arith
units_empty u no_unit [] us e p = ground arith
units_empty u unit (c ∷ text) us e p = ground arith

-- The score of a text in graphemes or in code points: it is made, it counts no error exactly if the
-- texts are equal, and its length is 0 exactly if the reference is empty.
pub cer_score-exact :
    (u : Unicode) (unit : UnitName) (reference hypothesis : List ℕ)
    → is_character unit ≡ true
    → (s : TextScore) × (cer_score u unit reference hypothesis ≡ some s)
      × ((s.errors ≡ 0) ↔ (reference ≡ hypothesis))
      × ((s.length ≡ 0) ↔ (reference ≡ []))
unfolding cer_score
cer_score-exact u unit reference hypothesis h =
    let (rs, r, rt) = units_of u unit reference h in
    let (hs, y, ht) = units_of u unit hypothesis h in
    let (d, l, cheap) = levenshtein-least strings rs hs in
    let zero_iff = Cheapest-zero strings rs hs d cheap in
    (
      record { errors = d; length = length rs; unit = unit },
      rw (r, y, l) refl,
      (λ z. sym rt ∙ ap flatten (zero_iff.0 z) ∙ ht, λ same. zero_iff.1 cc),
      (λ z. sym rt ∙ nothing_flat rs z, units_empty u unit reference rs r),
    )

-- The score of a text in words is made, whatever the texts, and counts no error exactly if they have
-- the same words in the same order.
pub wer_score-exact :
    (space : ℕ → Bool) (reference hypothesis : List ℕ)
    → (s : TextScore) × (wer_score space reference hypothesis ≡ some s)
      × ((s.errors ≡ 0) ↔ (words space reference ≡ words space hypothesis))
unfolding wer_score
wer_score-exact space reference hypothesis =
    let rs = words space reference in
    let hs = words space hypothesis in
    let (d, l, cheap) = levenshtein-least strings rs hs in
    (
      record { errors = d; length = length rs; unit = word },
      rw l refl,
      Cheapest-zero strings rs hs d cheap,
    )

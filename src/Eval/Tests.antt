-- ===== src/Eval/Tests.antt =====
-- app/eval: runs of the text metrics on small inputs.
use ocr_orchestrator.Common.{
  ℕ, Bool, ◌≡◌, refl, ◌↔◌, some, none, List, [], ◌∷◌, ◌==◌, ==_iff, ◌||◌, if◌then◌else◌,
}
use ocr_orchestrator.Common.Int.{pos, negsuc, ◌+ℤ◌, ◌-ℤ◌}
use ocr_orchestrator.Eval.Boxes.{Box, Matching, BoxReport, iou, match_boxes, score_boxes}
use ocr_orchestrator.Eval.Boxes.Stable.{IsStable, match_boxes-IsStable}
use ocr_orchestrator.Eval.Boxes.Accounts.{Balanced, score_boxes_accounts}
use ocr_orchestrator.Eval.Text.{Units, levenshtein}
use ocr_orchestrator.Eval.Text.Rows.{Cheapest, levenshtein-least}
use ocr_orchestrator.Eval.Graphemes.{Unicode, graphemes}
use ocr_orchestrator.Eval.Graphemes.Split.{segments, graphemes-segments}
use ocr_orchestrator.Eval.Score.{TextScore, grapheme, word, cer_score, aggregate}
use ocr_orchestrator.Eval.Score.Exact.{cer_score-exact}

abbrev codes : Units ℕ
codes = record { same = λ a b. a == b; same_iff = ==_iff }

-- "cart" and "act".
abbrev cart : List ℕ
cart = 99 ∷ 97 ∷ 114 ∷ 116 ∷ []

abbrev act : List ℕ
act = 97 ∷ 99 ∷ 116 ∷ []

cart_distance : levenshtein codes cart act ≡ some 2
unfolding levenshtein
cart_distance = refl

act_distance : levenshtein codes act cart ≡ some 2
unfolding levenshtein
act_distance = refl

levenshtein-least_example :
    (d : ℕ) × (levenshtein codes cart act ≡ some d) × Cheapest codes cart act d
levenshtein-least_example = levenshtein-least codes cart act

-- Virama and a vowel sign of Devanagari.
abbrev devanagari : Unicode
devanagari = record {
  combining = λ c. if c == 0x94d then 9 else 0;
  is_mark = λ c. c == 0x94d || c == 0x93f;
}

-- A conjunct with its vowel sign, and a letter.
abbrev kshi : List ℕ
kshi = 0x915 ∷ 0x94d ∷ 0x937 ∷ 0x93f ∷ 97 ∷ []

kshi_clusters : graphemes devanagari kshi ≡ (0x915 ∷ 0x94d ∷ 0x937 ∷ 0x93f ∷ []) ∷ (97 ∷ []) ∷ []
unfolding graphemes
kshi_clusters = refl

graphemes-segments_example : graphemes devanagari kshi ≡ segments devanagari kshi
graphemes-segments_example = graphemes-segments devanagari kshi

abbrev blank : ℕ → Bool
blank c = c == 32

cer_score-exact_example :
    (s : TextScore) × (cer_score devanagari grapheme cart act ≡ some s)
    × ((s.errors ≡ 0) ↔ (cart ≡ act))
    × ((s.length ≡ 0) ↔ (cart ≡ []))
cer_score-exact_example = cer_score-exact devanagari grapheme cart act refl

abbrev page : TextScore
page = record { errors = 4; length = 1; unit = grapheme }

abbrev clean : TextScore
clean = record { errors = 0; length = 2000; unit = grapheme }

abbrev by_word : TextScore
by_word = record { errors = 1; length = 10; unit = word }

aggregate_mixed : aggregate (page ∷ by_word ∷ []) ≡ none
aggregate_mixed = refl

-- Two predicted boxes over one true box; the second one fits exactly, and the other true box is far off.
abbrev predicted_boxes : List Box
predicted_boxes =
    record { x = pos 0; y = pos 0; w = pos 10; h = pos 10 }
    ∷ record { x = pos 2; y = pos 0; w = pos 10; h = pos 10 }
    ∷ []

abbrev true_boxes : List Box
true_boxes =
    record { x = pos 2; y = pos 0; w = pos 10; h = pos 10 }
    ∷ record { x = negsuc 89; y = pos 0; w = pos 5; h = pos 5 }
    ∷ []

best_first :
    match_boxes predicted_boxes true_boxes
    ≡ some (record {
      matches =
          record { predicted_index = 1; truth_index = 0; score = record { num = 100; below = 99 } }
          ∷ [];
      unmatched_predicted = 0 ∷ [];
      unmatched_truth = 1 ∷ [];
    })
unfolding match_boxes iou ◌+ℤ◌ ◌-ℤ◌
best_first = refl

match_boxes-IsStable_example :
    (m : Matching) × (match_boxes predicted_boxes true_boxes ≡ some m)
    × IsStable predicted_boxes true_boxes m
match_boxes-IsStable_example =
    match_boxes-IsStable predicted_boxes true_boxes ((refl, refl), ((refl, refl), tt))
      ((refl, refl), ((refl, refl), tt))

score_boxes_accounts_example :
    (r : BoxReport) × (score_boxes predicted_boxes true_boxes (record { num = 1; below = 1 })
      ≡ some r)
    × Balanced predicted_boxes true_boxes r
score_boxes_accounts_example =
    score_boxes_accounts predicted_boxes true_boxes (record { num = 1; below = 1 })
      ((refl, refl), ((refl, refl), tt)) ((refl, refl), ((refl, refl), tt))

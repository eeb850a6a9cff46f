-- ===== src/Evidence/Examples.antt =====
-- Concrete retrieved memories, and each theorem at them.
use recall_ai.Base.{ℕ, ◌+◌, ◌≤◌, Bool, true, false, List, [], ◌∷◌, ◌≡◌, ◌↔◌, refl, leb, All}
use recall_ai.Evidence.{RetrievedMemory, assess, from_rows, assess_kept}

-- Scores of 90, 60 and 20 out of 100.
abbrev found : List RetrievedMemory
found =
    record { item = 1; score = 60 }
    ∷ record { item = 2; score = 90 }
    ∷ record { item = 3; score = 20 }
    ∷ []

best_alone : (assess 30 80 10 found).memories ≡ record { item = 2; score = 90 } ∷ []
unfolding assess recall_ai.Base.select_where recall_ai.Base.order_desc
best_alone = refl

rows_scored : from_rows 100 ((1, 40) ∷ (2, 10) ∷ (3, 80) ∷ []) ≡ found
unfolding from_rows
rows_scored = refl

assess_kept_example :
    All
      (λ m. (30 ≤ m.score) × All (λ n. n.score ≤ m.score + 10) found)
      (assess 30 80 10 found).memories
assess_kept_example = assess_kept 30 80 10 found

-- ===== src/Evidence.antt =====
-- Whether the retrieved memories are enough to answer from: app/services/chat_engine/evidence.py. A
-- score is a whole number of some unit fraction of 1, so the rounding of floats is not modelled.
mod Examples
use recall_ai.Base.{
  ℕ, ◌+◌, ◌-◌, ◌≤◌, Bool, true, false, Option, List, [], ◌∷◌, ◌≡◌, ◌↔◌, refl, sym, ap, arith,
  All-pointwise, Descending, Descending-order_desc, Descending-select_where, leb, if◌then◌else◌,
  All, All-map, map, select_where, All-select_where, order_desc, All-order_desc, inl, inr,
  Bool-cases,
}
use mathlib.Core.Path.{subst}

pub data EvidenceStatus : Type 0 where
  no_evidence insufficient supported : EvidenceStatus

-- The memory is known by its id.
pub record RetrievedMemory : Type 0 where
  pub item : ℕ
  pub score : ℕ

pub record Evidence : Type 0 where
  pub status : EvidenceStatus
  pub memories : List RetrievedMemory

abbrev pub score_of : RetrievedMemory → ℕ
score_of m = m.score

-- `score_from_distance`, where `one` is the number that stands for 1.
unfoldable pub score_from_distance : ℕ → ℕ → ℕ
score_from_distance one distance = one - distance

-- A retrieved row is an item and its distance.
unfoldable pub from_rows : ℕ → List (ℕ × ℕ) → List RetrievedMemory
unfolding score_from_distance
from_rows one rows = map (λ r. record { item = r.0; score = score_from_distance one r.1 }) rows

-- `Evidence.best_score`.
unfoldable pub best_score : Evidence → ℕ
best_score e = elim e.memories [ [] ↦ 0 | m ∷ rest ↦ m.score ]

unfoldable pub ranked : List RetrievedMemory → List RetrievedMemory
ranked memories = order_desc score_of memories

unfoldable pub above_floor : ℕ → List RetrievedMemory → List RetrievedMemory
unfolding ranked
above_floor floor memories = select_where (λ m. leb floor m.score) (ranked memories)

-- The memories above the floor, the best first.
unfoldable pub judge : ℕ → ℕ → List RetrievedMemory → Evidence
judge strong spread [] = record { status = no_evidence; memories = [] }
judge strong spread (best ∷ rest) = record {
  status = if leb strong best.score then supported else insufficient;
  memories = select_where (λ m. leb (best.score - spread) m.score) (best ∷ rest);
}

unfoldable pub assess : ℕ → ℕ → ℕ → List RetrievedMemory → Evidence
unfolding judge above_floor
assess floor strong spread memories = judge strong spread (above_floor floor memories)

All-above_floor :
    (P : RetrievedMemory → Type 0) (floor : ℕ) (memories : List RetrievedMemory)
    → All P (above_floor floor memories) ↔ All (λ m. leb floor m.score ≡ true → P m) memories
unfolding above_floor ranked
All-above_floor P floor memories =
    let inside = All-select_where P (λ m. leb floor m.score) (ranked memories) in
    let order = All-order_desc score_of (λ m. leb floor m.score ≡ true → P m) memories in
    (λ h. order.1 (inside.0 h), λ h. inside.1 (order.0 h))

above_floor-Descending :
    (floor : ℕ) (memories : List RetrievedMemory) → Descending score_of (above_floor floor memories)
unfolding above_floor ranked
above_floor-Descending floor memories =
    Descending-select_where score_of (λ m. leb floor m.score) _
      (Descending-order_desc score_of memories)

not_true : (b : Bool) → (b ≡ true → ⊥) → b ≡ false
not_true true h = absurd (h refl)
not_true false h = refl

module _ (floor strong spread : ℕ) (memories : List RetrievedMemory) where
  ranked_clear : All (λ m. floor ≤ m.score) (above_floor floor memories)
  ranked_clear =
      (All-above_floor _ floor memories).1 (All-pointwise _ memories (λ m h. ground (arith, h)))

  -- The best memory above the floor is the best of all.
  best_overall :
      (best : RetrievedMemory) (rest : List RetrievedMemory)
      → above_floor floor memories ≡ best ∷ rest
      → All (λ m. m.score ≤ best.score) (best ∷ rest)
      → (floor ≤ best.score) × All (λ m. m.score ≤ best.score) memories
  best_overall best rest e top =
      let least : floor ≤ best.score = (subst (All (λ m. floor ≤ m.score)) e ranked_clear).0 in
      let ranked_below =
        (All-above_floor (λ m. m.score ≤ best.score) floor memories).0
          (subst (All (λ m. m.score ≤ best.score)) (sym e) top) in
      (
        least,
        All-map _ (λ m. m.score ≤ best.score) memories
            (λ m h. elim (Bool-cases (leb floor m.score)) [
              | inl b ↦ h b
              | inr b ↦ ground (arith, b, least)
            ])
            ranked_below,
      )

  abbrev Close : RetrievedMemory → Type 0
  Close m = (floor ≤ m.score) × All (λ n. n.score ≤ m.score + spread) memories

  kept-Close :
      (ab : List RetrievedMemory)
      → above_floor floor memories ≡ ab
      → Descending score_of ab
      → All Close (judge strong spread ab).memories
  unfolding judge
  kept-Close [] e d = tt
  kept-Close (best ∷ rest) e d =
      let top = best_overall best rest e (omega arith, d.0) in
      (All-select_where Close (λ m. leb (best.score - spread) m.score) (best ∷ rest)).1 (
        All-map (λ m. floor ≤ m.score) _ (best ∷ rest)
          (λ m above near. (
            above,
            All-map _ (λ n. n.score ≤ m.score + spread) memories (λ n le. ground (arith, le, near))
                top.1,
          ))
          (subst (All (λ m. floor ≤ m.score)) e ranked_clear))

  -- Every memory that an answer may use clears the floor, and no retrieved memory beats it by more
  -- than the margin.
  pub assess_kept :
      All
        (λ m. (floor ≤ m.score) × All (λ n. n.score ≤ m.score + spread) memories)
        (assess floor strong spread memories).memories
  unfolding assess
  assess_kept = kept-Close (above_floor floor memories) refl (above_floor-Descending floor memories)

  judged :
      (ab : List RetrievedMemory)
      → above_floor floor memories ≡ ab
      → Descending score_of ab
      → ((judge strong spread ab).status ≡ no_evidence
          ↔ All (λ m. leb floor m.score ≡ false) memories)
        × ((judge strong spread ab).status ≡ supported
            ↔ ¬ All (λ m. leb floor m.score ≡ true → leb strong m.score ≡ false) memories)
  unfolding judge
  judged [] e d =
      let below : All (λ m. leb floor m.score ≡ false) memories =
        All-map _ _ memories (λ m h. not_true (leb floor m.score) h)
          ((All-above_floor (λ m. ⊥) floor memories).0 (subst (All (λ m. ⊥)) (sym e) tt)) in
      (
        (λ _. below, λ _. refl),
        (
          λ c. absurd (cc),
          λ h. absurd (h (All-map _ _ memories (λ m f t. absurd (cc (f, t))) below)),
        ),
      )
  judged (best ∷ rest) e d =
      let top = best_overall best rest e (omega arith, d.0) in
      let some_above : ¬ All (λ m. leb floor m.score ≡ false) memories = λ h.
        (subst (All (λ m. ⊥)) e (
          (All-above_floor (λ m. ⊥) floor memories).1
            (All-map _ _ memories (λ m f t. absurd (cc (f, t))) h))).0 in
      elim (Bool-cases (leb strong best.score)) [
        | inl w ↦ rw w (
          (λ c. absurd (cc), λ h. absurd (some_above h)),
          (
            λ _ h. absurd (
                cc (
                  w,
                  (subst (All (λ m. leb strong m.score ≡ false)) e
                      ((All-above_floor _ floor memories).1 h)).0,
                )),
            λ _. refl,
          ),
        )
        | inr w ↦ rw w (
          (λ c. absurd (cc), λ h. absurd (some_above h)),
          (
            λ c. absurd (cc),
            λ h. absurd (h (All-map _ _ memories (λ m le _. ground (arith, le, w)) top.1)),
          ),
        )
      ]

  -- There is no evidence exactly where no memory clears the floor, and the evidence supports an
  -- answer exactly where a memory clears both the floor and the strong score.
  pub assess_status :
      ((assess floor strong spread memories).status ≡ no_evidence
        ↔ All (λ m. leb floor m.score ≡ false) memories)
      × ((assess floor strong spread memories).status ≡ supported
          ↔ ¬ All (λ m. leb floor m.score ≡ true → leb strong m.score ≡ false) memories)
  unfolding assess
  assess_status = judged (above_floor floor memories) refl (above_floor-Descending floor memories)

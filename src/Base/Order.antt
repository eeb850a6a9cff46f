-- ===== src/Base/Order.antt =====
-- ORDER BY … DESC, as an insertion sort on a numeric column.
use Prim.Native.Nat.{ℕ, ◌≤◌}
use mathlib.Core.Bool.{Bool}
use native.Mathlib.Omega.{arith}
use mathlib.Core.Logic.{◌↔◌, inl, inr}
use mathlib.Core.List.{List, [], ◌∷◌}
use recall_ai.Base.Tests.{leb, if◌then◌else◌, Bool-cases}
use recall_ai.Base.Lists.{All, All-map}
use recall_ai.Base.Query.{select_where, All-select_where}

module _ {ℓ} {A : Type ℓ} (column : A → ℕ) where
  unfoldable pub insert_desc : A → List A → List A
  insert_desc r [] = r ∷ []
  insert_desc r (x ∷ xs) = if leb (column x) (column r) then r ∷ x ∷ xs else x ∷ insert_desc r xs

  unfoldable pub order_desc : List A → List A
  unfolding insert_desc
  order_desc [] = []
  order_desc (x ∷ xs) = insert_desc x (order_desc xs)

module _ {ℓ κ} {A : Type ℓ} (column : A → ℕ) (P : A → Type κ) where
  All-insert_desc : (r : A) (xs : List A) → (P r × All P xs) ↔ All P (insert_desc column r xs)
  unfolding insert_desc
  All-insert_desc r [] = (λ h. h, λ h. h)
  All-insert_desc r (x ∷ xs) = elim (Bool-cases (leb (column x) (column r))) [
    | inl e ↦ rw e (λ h. h, λ h. h)
    | inr e ↦
        let ih = All-insert_desc r xs in
        rw e (λ h. (h.1.0, ih.0 (h.0, h.1.1)), λ h. ((ih.1 h.1).0, (h.0, (ih.1 h.1).1)))
  ]

  -- Ordering neither loses nor adds a row.
  pub All-order_desc : (xs : List A) → All P xs ↔ All P (order_desc column xs)
  unfolding order_desc
  All-order_desc [] = (λ h. h, λ h. h)
  All-order_desc (x ∷ xs) =
      let ih = All-order_desc xs in
      let ins = All-insert_desc x (order_desc column xs) in
      (λ h. ins.0 (h.0, ih.0 h.1), λ h. ((ins.1 h).0, ih.1 (ins.1 h).1))

module _ {ℓ} {A : Type ℓ} (column : A → ℕ) where
  -- Each row is at least every later one.
  abbrev pub Descending : List A → Type 0
  Descending [] = Unit
  Descending (x ∷ xs) = All (λ y. column y ≤ column x) xs × Descending xs

  Descending-insert_desc :
      (r : A) (xs : List A) → Descending xs → Descending (insert_desc column r xs)
  unfolding insert_desc
  Descending-insert_desc r [] d = (tt, tt)
  Descending-insert_desc r (x ∷ xs) d = elim (Bool-cases (leb (column x) (column r))) [
    | inl e ↦
        let le : column x ≤ column r = ground (arith, e) in
        rw e ((le, All-map _ (λ y. column y ≤ column r) xs (λ y h. omega (arith, h, le)) d.0), d)
    | inr e ↦
        let le : column r ≤ column x = ground (arith, e) in
        rw e (
          (All-insert_desc column (λ y. column y ≤ column x) r xs).0 (le, d.0),
          Descending-insert_desc r xs d.1,
        )
  ]

  pub Descending-order_desc : (xs : List A) → Descending (order_desc column xs)
  unfolding order_desc
  Descending-order_desc [] = tt
  Descending-order_desc (x ∷ xs) = Descending-insert_desc x _ (Descending-order_desc xs)

  pub Descending-select_where :
      (q : A → Bool) (xs : List A) → Descending xs → Descending (select_where q xs)
  unfolding select_where
  Descending-select_where q [] d = tt
  Descending-select_where q (x ∷ xs) d = elim (Bool-cases (q x)) [
    | inl e ↦ rw e (
      (All-select_where _ q xs).1 (All-map _ _ xs (λ y h _. h) d.0),
      Descending-select_where q xs d.1,
    )
    | inr e ↦ rw e (Descending-select_where q xs d.1)
  ]

-- ORDER BY … ASC.
module _ {ℓ} {A : Type ℓ} (column : A → ℕ) where
  unfoldable pub insert_asc : A → List A → List A
  insert_asc r [] = r ∷ []
  insert_asc r (x ∷ xs) = if leb (column r) (column x) then r ∷ x ∷ xs else x ∷ insert_asc r xs

  unfoldable pub order_asc : List A → List A
  unfolding insert_asc
  order_asc [] = []
  order_asc (x ∷ xs) = insert_asc x (order_asc xs)

module _ {ℓ κ} {A : Type ℓ} (column : A → ℕ) (P : A → Type κ) where
  pub All-insert_asc : (r : A) (xs : List A) → (P r × All P xs) ↔ All P (insert_asc column r xs)
  unfolding insert_asc
  All-insert_asc r [] = (λ h. h, λ h. h)
  All-insert_asc r (x ∷ xs) = elim (Bool-cases (leb (column r) (column x))) [
    | inl e ↦ rw e (λ h. h, λ h. h)
    | inr e ↦
        let ih = All-insert_asc r xs in
        rw e (λ h. (h.1.0, ih.0 (h.0, h.1.1)), λ h. ((ih.1 h.1).0, (h.0, (ih.1 h.1).1)))
  ]

  pub All-order_asc : (xs : List A) → All P xs ↔ All P (order_asc column xs)
  unfolding order_asc
  All-order_asc [] = (λ h. h, λ h. h)
  All-order_asc (x ∷ xs) =
      let ih = All-order_asc xs in
      let ins = All-insert_asc x (order_asc column xs) in
      (λ h. ins.0 (h.0, ih.0 h.1), λ h. ((ins.1 h).0, ih.1 (ins.1 h).1))

-- ===== src/Base/Rows.antt =====
-- A row found by its key, after the writes, and selections of rows with distinct keys.
use Prim.Native.Nat.{ℕ, zero, suc}
use mathlib.Core.Path.{◌≡◌, refl, sym, ap, ◌∙◌}
use mathlib.Core.Bool.{Bool, true, false}
use mathlib.Core.Option.{some, some-injective}
use mathlib.Core.List.{List, [], ◌∷◌}
use mathlib.Core.Logic.{◌≢◌, inl, inr}
use native.Mathlib.Omega.{arith}
use recall_ai.Base.Tests.{◌==◌, ==_iff, ==_refl, leb, if◌then◌else◌, Bool-cases}
use recall_ai.Base.Lists.{All, All-map, length, take}
use recall_ai.Base.Query.{find_first, select_where, count_where, All-select_where}
use recall_ai.Base.Keyed.{save, Distinct}
use recall_ai.Base.Order.{insert_asc, order_asc, All-insert_asc, All-order_asc}

module _ {ℓ} {A : Type ℓ} (key : A → ℕ) where
  abbrev pub with_key : ℕ → A → Bool
  with_key n x = key x == n

  -- A saved row is the one that its key finds; no other key sees the write.
  pub find_key-save :
      (n : ℕ) (r : A) (xs : List A)
      → find_first (with_key n) (save key r xs)
        ≡ (if key r == n then some r else find_first (with_key n) xs)
  unfolding find_first save
  find_key-save n r [] = refl
  find_key-save n r (x ∷ xs) = elim (Bool-cases (key x == key r)) [
    | inl e ↦
        let same : key x ≡ key r = (==_iff _ _).0 e in
        elim (Bool-cases (key r == n)) [
          | inl m ↦ rw e (rw m refl)
          | inr m ↦ rw e (rw m (rw same (rw m refl)))
        ]
    | inr e ↦ elim (Bool-cases (key x == n)) [
      | inl m ↦
          let other : (key r == n) ≡ false = ground (arith, e, m) in rw e (rw m (rw other refl))
      | inr m ↦ rw e (rw m (find_key-save n r xs))
    ]
  ]

  pub find_key-save_other :
      (n : ℕ) (r : A) (xs : List A)
      → key r ≢ n
      → find_first (with_key n) (save key r xs) ≡ find_first (with_key n) xs
  find_key-save_other n r xs other =
      let ne : (key r == n) ≡ false = ground (arith, other) in find_key-save n r xs ∙ rw ne refl

  pub find_key-save_same :
      (r : A) (xs : List A) → find_first (with_key (key r)) (save key r xs) ≡ some r
  find_key-save_same r xs = find_key-save (key r) r xs ∙ rw (==_refl (key r)) refl

  -- The row that a key finds has the key.
  pub found_key : (n : ℕ) (xs : List A) {x : A} → find_first (with_key n) xs ≡ some x → key x ≡ n
  unfolding find_first
  found_key n [] h = absurd (cc)
  found_key n (y ∷ xs) {x} h = elim (Bool-cases (key y == n)) [
    | inl e ↦
        let same : y ≡ x = some-injective _ _ (rw e at h) in sym (ap key same) ∙ (==_iff _ _).0 e
    | inr e ↦ found_key n xs (rw e at h)
  ]

  pub Distinct-select_where :
      (q : A → Bool) (xs : List A) → Distinct key xs → Distinct key (select_where q xs)
  unfolding select_where
  Distinct-select_where q [] d = tt
  Distinct-select_where q (x ∷ xs) d = elim (Bool-cases (q x)) [
    | inl e ↦ rw e (
      (All-select_where _ q xs).1 (All-map _ _ xs (λ y h _. h) d.0),
      Distinct-select_where q xs d.1,
    )
    | inr e ↦ rw e (Distinct-select_where q xs d.1)
  ]

  Distinct-insert_asc :
      (column : A → ℕ) (r : A) (xs : List A)
      → All (λ y. key y ≢ key r) xs
      → Distinct key xs
      → Distinct key (insert_asc column r xs)
  unfolding insert_asc
  Distinct-insert_asc column r [] f d = (tt, tt)
  Distinct-insert_asc column r (x ∷ xs) f d = elim (Bool-cases (leb (column r) (column x))) [
    | inl e ↦ rw e (f, d)
    | inr e ↦ rw e (
      (All-insert_asc column (λ y. key y ≢ key x) r xs).0 (λ e. f.0 (sym e), d.0),
      Distinct-insert_asc column r xs f.1 d.1,
    )
  ]

  pub Distinct-order_asc :
      (column : A → ℕ) (xs : List A) → Distinct key xs → Distinct key (order_asc column xs)
  unfolding order_asc
  Distinct-order_asc column [] d = tt
  Distinct-order_asc column (x ∷ xs) d =
      Distinct-insert_asc column x (order_asc column xs) ((All-order_asc column _ xs).0 d.0)
        (Distinct-order_asc column xs d.1)

module _ {ℓ κ} {A : Type ℓ} where
  pub All-take : (P : A → Type κ) (n : ℕ) (xs : List A) → All P xs → All P (take n xs)
  All-take P zero xs a = tt
  All-take P (suc n) [] a = tt
  All-take P (suc n) (x ∷ xs) a = (a.0, All-take P n xs a.1)

module _ {ℓ} {A : Type ℓ} (key : A → ℕ) where
  found_past :
      (x : A) (xs ys : List A)
      → All (λ y. key y ≢ key x) ys
      → All (λ y. find_first (with_key key (key y)) xs ≡ some y) ys
      → All (λ y. find_first (with_key key (key y)) (x ∷ xs) ≡ some y) ys
  unfolding find_first
  found_past x xs [] n h = tt
  found_past x xs (y ∷ ys) n h =
      let other : (key x == key y) ≡ false = ground (arith, n.0) in
      (rw other h.0, found_past x xs ys n.1 h.1)

  found-All :
      (xs : List A) → Distinct key xs → All (λ x. find_first (with_key key (key x)) xs ≡ some x) xs
  unfolding find_first
  found-All [] d = tt
  found-All (x ∷ xs) d = (rw (==_refl (key x)) refl, found_past x xs xs d.0 (found-All xs d.1))

module _ {ℓ} {A : Type ℓ} where
  pub Distinct-take :
      (key : A → ℕ) (n : ℕ) (xs : List A) → Distinct key xs → Distinct key (take n xs)
  Distinct-take key zero xs d = tt
  Distinct-take key (suc n) [] d = tt
  Distinct-take key (suc n) (x ∷ xs) d = (All-take _ n xs d.0, Distinct-take key n xs d.1)

  -- The rows of a selection, each found by its key.
  pub found_select_where :
      (key : A → ℕ) (q : A → Bool) (xs : List A)
      → Distinct key xs
      → All
          (λ x. (find_first (with_key key (key x)) xs ≡ some x) × (q x ≡ true))
          (select_where q xs)
  found_select_where key q xs d =
      (All-select_where _ q xs).1 (All-map _ _ xs (λ x h t. (h, t)) (found-All key xs d))

  pub length-insert_asc :
      (column : A → ℕ) (r : A) (xs : List A) → length (insert_asc column r xs) ≡ suc (length xs)
  unfolding insert_asc
  length-insert_asc column r [] = refl
  length-insert_asc column r (x ∷ xs) = elim (Bool-cases (leb (column r) (column x))) [
    | inl e ↦ rw e refl
    | inr e ↦ rw e (omega (arith, length-insert_asc column r xs))
  ]

  pub length-order_asc : (column : A → ℕ) (xs : List A) → length (order_asc column xs) ≡ length xs
  unfolding order_asc
  length-order_asc column [] = refl
  length-order_asc column (x ∷ xs) =
      omega (arith, length-insert_asc column x (order_asc column xs), length-order_asc column xs)

  pub length-selected : (q : A → Bool) (xs : List A) → length (select_where q xs) ≡ count_where q xs
  unfolding select_where count_where
  length-selected q [] = refl
  length-selected q (x ∷ xs) = elim (Bool-cases (q x)) [
    | inl e ↦ rw e (omega (arith, length-selected q xs))
    | inr e ↦ rw e (omega (arith, length-selected q xs))
  ]

-- ===== src/Base/Query.antt =====
-- The statements that the repositories issue, over a table held as a list of rows.
use Prim.Native.Nat.{ℕ, ◌+◌, ◌≤◌}
use mathlib.Core.Path.{◌≡◌, refl, subst, ap}
use mathlib.Core.Bool.{Bool, true, false}
use mathlib.Core.Option.{Option, none, some, some-injective}
use mathlib.Core.List.{List, [], ◌∷◌, ◌++◌, map}
use mathlib.Core.Logic.{inl, inr, ◌↔◌}
use native.Mathlib.Omega.{arith}
use recall_ai.Base.Tests.{if◌then◌else◌, bit, Bool-cases}
use recall_ai.Base.Lists.{All}

module _ {ℓ} {A : Type ℓ} where
  -- SELECT … WHERE p, then `.first()`.
  unfoldable pub find_first : (A → Bool) → List A → Option A
  find_first p [] = none
  find_first p (x ∷ xs) = if p x then some x else find_first p xs

  -- SELECT … WHERE p.
  unfoldable pub select_where : (A → Bool) → List A → List A
  select_where p [] = []
  select_where p (x ∷ xs) = let rest = select_where p xs in if p x then x ∷ rest else rest

  -- UPDATE … SET f WHERE p.
  unfoldable pub update_where : (A → Bool) → (A → A) → List A → List A
  update_where p f [] = []
  update_where p f (x ∷ xs) = (if p x then f x else x) ∷ update_where p f xs

  -- DELETE … WHERE p.
  unfoldable pub delete_where : (A → Bool) → List A → List A
  delete_where p [] = []
  delete_where p (x ∷ xs) = let rest = delete_where p xs in if p x then rest else x ∷ rest

  -- SELECT count(*) WHERE p, which is also the rowcount of an UPDATE or DELETE.
  unfoldable pub count_where : (A → Bool) → List A → ℕ
  count_where p [] = 0
  count_where p (x ∷ xs) = bit (p x) + count_where p xs

module _ {ℓ} {A : Type ℓ} where
  pub find_first_holds :
      (p : A → Bool) (xs : List A) {x : A} → find_first p xs ≡ some x → p x ≡ true
  unfolding find_first
  find_first_holds p [] h = cc
  find_first_holds p (y ∷ xs) {x} h = ground (arith, find_first_holds p xs {x = x})

  pub All-find_first {κ} :
      (P : A → Type κ) (p : A → Bool) (xs : List A) {x : A}
      → All P xs
      → find_first p xs ≡ some x
      → P x
  unfolding find_first
  All-find_first P p [] a h = absurd (cc)
  All-find_first P p (y ∷ xs) {x} a h = elim (Bool-cases (p y)) [
    | inl e ↦ subst P (some-injective _ _ (rw e at h)) a.0
    | inr e ↦ All-find_first P p xs a.1 (rw e at h)
  ]

  pub All-update_where {κ} :
      (P : A → Type κ) (p : A → Bool) (f : A → A) (xs : List A)
      → ((x : A) → P x → p x ≡ true → P (f x))
      → All P xs
      → All P (update_where p f xs)
  unfolding update_where
  All-update_where P p f [] k a = tt
  All-update_where P p f (x ∷ xs) k a = elim (Bool-cases (p x)) [
    | inl e ↦ (rw e (k x a.0 e), All-update_where P p f xs k a.1)
    | inr e ↦ (rw e a.0, All-update_where P p f xs k a.1)
  ]

  -- What an UPDATE makes true of the rows it touches, and what the others have already.
  pub update_where-All {κ} :
      (P : A → Type κ) (p : A → Bool) (f : A → A) (xs : List A)
      → ((x : A) → p x ≡ true → P (f x))
      → ((x : A) → p x ≡ false → P x)
      → All P (update_where p f xs)
  unfolding update_where
  update_where-All P p f [] k m = tt
  update_where-All P p f (x ∷ xs) k m = elim (Bool-cases (p x)) [
    | inl e ↦ (rw e (k x e), update_where-All P p f xs k m)
    | inr e ↦ (rw e (m x e), update_where-All P p f xs k m)
  ]

  pub All-delete_where {κ} :
      (P : A → Type κ) (p : A → Bool) (xs : List A) → All P xs → All P (delete_where p xs)
  unfolding delete_where
  All-delete_where P p [] a = tt
  All-delete_where P p (x ∷ xs) a = elim (Bool-cases (p x)) [
    | inl e ↦ rw e (All-delete_where P p xs a.1)
    | inr e ↦ rw e (a.0, All-delete_where P p xs a.1)
  ]

  -- An UPDATE under which no row starts to satisfy `q` does not raise the count of `q`.
  pub count_where-update_where :
      (q p : A → Bool) (f : A → A) (xs : List A)
      → ((x : A) → p x ≡ true → bit (q (f x)) ≤ bit (q x))
      → count_where q (update_where p f xs) ≤ count_where q xs
  unfolding update_where count_where
  count_where-update_where q p f [] k = omega arith
  count_where-update_where q p f (x ∷ xs) k = elim (Bool-cases (p x)) [
    | inl e ↦ rw e (omega (arith, k x e, count_where-update_where q p f xs k))
    | inr e ↦ rw e (omega (arith, count_where-update_where q p f xs k))
  ]

  pub count_where-delete_where :
      (q p : A → Bool) (xs : List A) → count_where q (delete_where p xs) ≤ count_where q xs
  unfolding delete_where count_where
  count_where-delete_where q p [] = omega arith
  count_where-delete_where q p (x ∷ xs) = elim (Bool-cases (p x)) [
    | inl e ↦ rw e (omega (arith, count_where-delete_where q p xs))
    | inr e ↦ rw e (omega (arith, count_where-delete_where q p xs))
  ]

  pub find_first-update_where :
      (q p : A → Bool) (f : A → A) (xs : List A) {o : A}
      → ((x : A) → q (f x) ≡ q x)
      → find_first q xs ≡ some o
      → find_first q (update_where p f xs) ≡ some (if p o then f o else o)
  unfolding find_first update_where
  find_first-update_where q p f [] k h = absurd (cc)
  find_first-update_where q p f (x ∷ xs) {o} k h = elim (Bool-cases (q x)) [
    | inl e ↦
        let same : x ≡ o = some-injective _ _ (rw e at h) in
        let kept : q (if p x then f x else x) ≡ true = ground (arith, k x) in
        rw kept (ap (λ y. some (if p y then f y else y)) same)
    | inr e ↦
        let kept : q (if p x then f x else x) ≡ false = ground (arith, k x) in
        rw kept (find_first-update_where q p f xs k (rw e at h))
  ]

  pub find_first-update_where_missing :
      (q p : A → Bool) (f : A → A) (xs : List A)
      → ((x : A) → q (f x) ≡ q x)
      → find_first q xs ≡ none
      → find_first q (update_where p f xs) ≡ none
  unfolding find_first update_where
  find_first-update_where_missing q p f [] k h = refl
  find_first-update_where_missing q p f (x ∷ xs) k h = elim (Bool-cases (q x)) [
    | inl e ↦ absurd (cc (h, e))
    | inr e ↦
        let kept : q (if p x then f x else x) ≡ false = ground (arith, k x) in
        rw kept (find_first-update_where_missing q p f xs k (rw e at h))
  ]

  pub count_where-append :
      (q : A → Bool) (xs ys : List A)
      → count_where q (xs ++ ys) ≡ count_where q xs + count_where q ys
  unfolding count_where
  count_where-append q [] ys = omega arith
  count_where-append q (x ∷ xs) ys = omega (arith, count_where-append q xs ys)

module _ {ℓ} {A : Type ℓ} where
  pub count_where-zero :
      (q : A → Bool) (xs : List A) → All (λ x. q x ≡ false) xs → count_where q xs ≡ 0
  unfolding count_where
  count_where-zero q [] a = refl
  count_where-zero q (x ∷ xs) a = rw (a.0) (omega (arith, count_where-zero q xs a.1))

  pub All-of_count_where :
      (q : A → Bool) (xs : List A) → count_where q xs ≡ 0 → All (λ x. q x ≡ false) xs
  unfolding count_where
  All-of_count_where q [] h = tt
  All-of_count_where q (x ∷ xs) h = elim (Bool-cases (q x)) [
    | inl e ↦ absurd (omega (arith, ap bit e))
    | inr e ↦ (e, All-of_count_where q xs (omega arith))
  ]

module _ {ℓ κ} {A : Type ℓ} {B : Type κ} where
  pub map-update_where :
      (g : A → B) (p : A → Bool) (f : A → A) (xs : List A)
      → ((x : A) → g (f x) ≡ g x)
      → map g (update_where p f xs) ≡ map g xs
  unfolding update_where
  map-update_where g p f [] k = refl
  map-update_where g p f (x ∷ xs) k = ground (arith, k x, map-update_where g p f xs k)

module _ {ℓ} {A : Type ℓ} where
  -- An UPDATE of rows outside a selection leaves the selection as it was.
  pub select_where-update_where :
      (q p : A → Bool) (f : A → A) (xs : List A)
      → All (λ x. p x ≡ true → (q x ≡ false) × (q (f x) ≡ false)) xs
      → select_where q (update_where p f xs) ≡ select_where q xs
  unfolding select_where update_where
  select_where-update_where q p f [] k = refl
  select_where-update_where q p f (x ∷ xs) k = elim (Bool-cases (p x)) [
    | inl e ↦ let out = k.0 e in rw e (rw (out.0, out.1) (select_where-update_where q p f xs k.1))
    | inr e ↦
        rw e (ap (λ rest. if q x then x ∷ rest else rest) (select_where-update_where q p f xs k.1))
  ]

  -- A query over a selection sees the rows that pass both tests.
  pub All-select_where {κ} :
      (P : A → Type κ) (q : A → Bool) (xs : List A)
      → All P (select_where q xs) ↔ All (λ x. q x ≡ true → P x) xs
  unfolding select_where
  All-select_where P q [] = (λ h. h, λ h. h)
  All-select_where P q (x ∷ xs) =
      let ih = All-select_where P q xs in
      elim (Bool-cases (q x)) [
        | inl e ↦ rw e (λ h. (λ _. h.0, ih.0 h.1), λ h. (h.0 refl, ih.1 h.1))
        | inr e ↦ rw e (λ h. (λ c. absurd (cc), ih.0 h), λ h. ih.1 h.1)
      ]

  pub find_first-none_iff :
      (p : A → Bool) (xs : List A) → (find_first p xs ≡ none) ↔ All (λ x. p x ≡ false) xs
  unfolding find_first
  find_first-none_iff p [] = (λ _. tt, λ _. refl)
  find_first-none_iff p (x ∷ xs) =
      let ih = find_first-none_iff p xs in
      elim (Bool-cases (p x)) [
        | inl e ↦ rw e (λ h. absurd (cc), λ h. absurd (cc))
        | inr e ↦ rw e (λ h. (refl, ih.0 h), λ h. ih.1 h.1)
      ]

-- ===== src/Base/Answers.antt =====
-- What a query answers after other statements, and tests that at most one row passes.
use Prim.Native.Nat.{◌≤◌}
use mathlib.Core.Path.{◌≡◌, refl, ap, ◌∙◌}
use mathlib.Core.Bool.{Bool, true, false}
use mathlib.Core.Option.{none, some, some-injective}
use mathlib.Core.List.{List, [], ◌∷◌, ◌++◌}
use mathlib.Core.Logic.{inl, inr}
use native.Mathlib.Omega.{arith}
use recall_ai.Base.Tests.{bit, is_some, Bool-cases}
use recall_ai.Base.Lists.{All, length}
use recall_ai.Base.Query.{
  find_first, select_where, update_where, delete_where, count_where, All-find_first,
  count_where-delete_where, All-of_count_where,
}

module _ {ℓ} {A : Type ℓ} where
  pub find_first-delete_where_self :
      (p : A → Bool) (xs : List A) → find_first p (delete_where p xs) ≡ none
  unfolding find_first delete_where
  find_first-delete_where_self p [] = refl
  find_first-delete_where_self p (x ∷ xs) = elim (Bool-cases (p x)) [
    | inl e ↦ rw e (find_first-delete_where_self p xs)
    | inr e ↦ rw e (rw e (find_first-delete_where_self p xs))
  ]

  pub find_first-append_missing :
      (p : A → Bool) (xs : List A) (r : A)
      → find_first p xs ≡ none
      → p r ≡ true
      → find_first p (xs ++ r ∷ []) ≡ some r
  unfolding find_first
  find_first-append_missing p [] r h t = rw t refl
  find_first-append_missing p (x ∷ xs) r h t = elim (Bool-cases (p x)) [
    | inl e ↦ absurd (cc (h, e))
    | inr e ↦ rw e (find_first-append_missing p xs r (rw e at h) t)
  ]

module _ {ℓ} {A : Type ℓ} where
  pub is_some-find_first-append :
      (p : A → Bool) (xs ys : List A)
      → is_some (find_first p xs) ≡ true
      → is_some (find_first p (xs ++ ys)) ≡ true
  unfolding find_first
  is_some-find_first-append p [] ys h = absurd (cc)
  is_some-find_first-append p (x ∷ xs) ys h = elim (Bool-cases (p x)) [
    | inl e ↦ rw e refl
    | inr e ↦ rw e (is_some-find_first-append p xs ys (rw e at h))
  ]

  pub is_some-find_first-last :
      (p : A → Bool) (xs : List A) (r : A)
      → p r ≡ true
      → is_some (find_first p (xs ++ r ∷ [])) ≡ true
  unfolding find_first
  is_some-find_first-last p [] r t = rw t refl
  is_some-find_first-last p (x ∷ xs) r t = elim (Bool-cases (p x)) [
    | inl e ↦ rw e refl
    | inr e ↦ rw e (is_some-find_first-last p xs r t)
  ]

  pub length-select_where : (q : A → Bool) (xs : List A) → length (select_where q xs) ≤ length xs
  unfolding select_where
  length-select_where q [] = omega arith
  length-select_where q (x ∷ xs) = elim (Bool-cases (q x)) [
    | inl e ↦ rw e (omega (arith, length-select_where q xs))
    | inr e ↦ rw e (omega (arith, length-select_where q xs))
  ]

module _ {ℓ} {A : Type ℓ} where
  -- An UPDATE that changes no row's answer to `q` keeps the count of `q`.
  pub count_where-update_where_same :
      (q p : A → Bool) (f : A → A) (xs : List A)
      → ((x : A) → p x ≡ true → q (f x) ≡ q x)
      → count_where q (update_where p f xs) ≡ count_where q xs
  unfolding update_where count_where
  count_where-update_where_same q p f [] k = refl
  count_where-update_where_same q p f (x ∷ xs) k = elim (Bool-cases (p x)) [
    | inl e ↦ rw e (rw (k x e) (rw (count_where-update_where_same q p f xs k) refl))
    | inr e ↦ rw e (rw (count_where-update_where_same q p f xs k) refl)
  ]

  -- Where at most one row passes a test, deleting what it finds, and more, leaves none.
  pub count_where-delete_where_found :
      (q p : A → Bool) (xs : List A) {o : A}
      → count_where q xs ≤ 1
      → find_first q xs ≡ some o
      → p o ≡ true
      → count_where q (delete_where p xs) ≡ 0
  unfolding find_first delete_where count_where
  count_where-delete_where_found q p [] n h t = refl
  count_where-delete_where_found q p (x ∷ xs) {o} n h t = elim (Bool-cases (q x)) [
    | inl e ↦
        let same : x ≡ o = some-injective _ _ (rw e at h) in
        let gone : p x ≡ true = ap p same ∙ t in
        rw gone (omega (arith, ap bit e, count_where-delete_where q p xs))
    | inr e ↦
        let later = count_where-delete_where_found q p xs (omega (arith, ap bit e)) (rw e at h) t in
        elim (Bool-cases (p x)) [
          | inl g ↦ rw g later
          | inr g ↦ rw g (omega (arith, ap bit e, later))
        ]
  ]

module _ {ℓ} {A : Type ℓ} where
  -- Where at most one row passes a test, it is the row found.
  pub find_first_unique :
      (p q : A → Bool) (xs : List A) {o : A}
      → count_where q xs ≤ 1
      → find_first p xs ≡ some o
      → q o ≡ true
      → find_first q xs ≡ some o
  unfolding find_first count_where
  find_first_unique p q [] n h t = absurd (cc)
  find_first_unique p q (x ∷ xs) {o} n h t = elim (Bool-cases (p x)) [
    | inl e ↦ let same : x ≡ o = some-injective _ _ (rw e at h) in rw (ap q same ∙ t) (ap some same)
    | inr e ↦ elim (Bool-cases (q x)) [
      | inl s ↦
          let rest : All (λ y. q y ≡ false) xs =
            All-of_count_where q xs (omega (arith, ap bit s)) in
          absurd (cc (All-find_first (λ y. q y ≡ false) p xs rest (rw e at h)))
      | inr s ↦ rw s (find_first_unique p q xs (omega (arith, ap bit s)) (rw e at h) t)
    ]
  ]

  -- Deleting other rows leaves the row that a query finds.
  pub find_first-delete_where_kept :
      (q p : A → Bool) (xs : List A) {o : A}
      → find_first q xs ≡ some o
      → p o ≡ false
      → find_first q (delete_where p xs) ≡ some o
  unfolding find_first delete_where
  find_first-delete_where_kept q p [] h k = absurd (cc)
  find_first-delete_where_kept q p (x ∷ xs) {o} h k = elim (Bool-cases (q x)) [
    | inl e ↦
        let same : x ≡ o = some-injective _ _ (rw e at h) in
        let stays : p x ≡ false = ap p same ∙ k in rw stays (rw e (ap some same))
    | inr e ↦
        let later = find_first-delete_where_kept q p xs (rw e at h) k in
        elim (Bool-cases (p x)) [ inl g ↦ rw g later | inr g ↦ rw g (rw e later) ]
  ]

-- ===== src/Base/Keyed.antt =====
-- Rows with a primary key. `save` is `session.add` with a flush: it writes the row that has the
-- key, or inserts a new one.
use Prim.Native.Nat.{ℕ, ◌+◌}
use mathlib.Core.Path.{◌≡◌, refl, sym, ◌∙◌}
use mathlib.Core.Bool.{Bool, true, false}
use mathlib.Core.Option.{none, some, some-injective}
use mathlib.Core.List.{List, [], ◌∷◌, ◌++◌}
use mathlib.Core.Logic.{◌≢◌, inl, inr}
use native.Mathlib.Omega.{arith}
use mathlib.Core.Path.{subst, ap}
use recall_ai.Base.Tests.{◌==◌, ==_iff, ==_refl, if◌then◌else◌, bit, Bool-cases}
use recall_ai.Base.Lists.{All}
use recall_ai.Base.Query.{
  find_first, update_where, delete_where, count_where, All-find_first, All-update_where,
  All-delete_where, count_where-append,
}

module _ {ℓ} {A : Type ℓ} (key : A → ℕ) where
  unfoldable pub save : A → List A → List A
  save r [] = r ∷ []
  save r (x ∷ xs) = if key x == key r then r ∷ xs else x ∷ save r xs

  -- No two rows share a key.
  abbrev pub Distinct : List A → Type 0
  Distinct [] = Unit
  Distinct (x ∷ xs) = All (λ y. key y ≢ key x) xs × Distinct xs

  -- No row has the key.
  abbrev pub Fresh : ℕ → List A → Type 0
  Fresh k = All (λ y. key y ≢ k)

module _ {ℓ} {A : Type ℓ} (key : A → ℕ) where
  pub All-save {κ} : (P : A → Type κ) (r : A) (xs : List A) → P r → All P xs → All P (save key r xs)
  unfolding save
  All-save P r [] h a = (h, tt)
  All-save P r (x ∷ xs) h a = elim (Bool-cases (key x == key r)) [
    | inl e ↦ rw e (h, a.1)
    | inr e ↦ rw e (a.0, All-save P r xs h a.1)
  ]

  pub save-eq-append : (r : A) (xs : List A) → Fresh key (key r) xs → save key r xs ≡ xs ++ r ∷ []
  unfolding save
  save-eq-append r [] f = refl
  save-eq-append r (x ∷ xs) f = elim (Bool-cases (key x == key r)) [
    | inl e ↦ absurd (f.0 ((==_iff _ _).0 e))
    | inr e ↦ rw e (ap (λ l. x ∷ l) (save-eq-append r xs f.1))
  ]

  pub Distinct-save : (r : A) (xs : List A) → Distinct key xs → Distinct key (save key r xs)
  unfolding save
  Distinct-save r [] d = (tt, tt)
  Distinct-save r (x ∷ xs) d = elim (Bool-cases (key x == key r)) [
    | inl e ↦ rw e (subst (λ (k : ℕ). All (λ y. key y ≢ k) xs) ((==_iff _ _).0 e) d.0, d.1)
    | inr e ↦ rw e (
      All-save (λ y. key y ≢ key x) r xs (λ p. cc ((==_iff (key x) (key r)).1 (sym p))) d.0,
      Distinct-save r xs d.1,
    )
  ]

  pub Distinct-update_where :
      (p : A → Bool) (f : A → A) (xs : List A)
      → ((x : A) → key (f x) ≡ key x)
      → Distinct key xs
      → Distinct key (update_where p f xs)
  unfolding update_where
  Distinct-update_where p f [] k d = tt
  Distinct-update_where p f (x ∷ xs) k d = (
    subst (λ (n : ℕ). All (λ y. key y ≢ n) (update_where p f xs)) (sym (ground (arith, k x)))
        (All-update_where (λ y. key y ≢ key x) p f xs (λ y h _ e. h (sym (k y) ∙ e)) d.0),
    Distinct-update_where p f xs k d.1,
  )

  pub Distinct-delete_where :
      (p : A → Bool) (xs : List A) → Distinct key xs → Distinct key (delete_where p xs)
  unfolding delete_where
  Distinct-delete_where p [] d = tt
  Distinct-delete_where p (x ∷ xs) d = elim (Bool-cases (p x)) [
    | inl e ↦ rw e (Distinct-delete_where p xs d.1)
    | inr e ↦ rw e (All-delete_where _ p xs d.0, Distinct-delete_where p xs d.1)
  ]

  -- The row that a query finds is the row that its key finds.
  pub find_first-key :
      (p : A → Bool) (xs : List A) {o : A}
      → Distinct key xs
      → find_first p xs ≡ some o
      → find_first (λ x. key x == key o) xs ≡ some o
  unfolding find_first
  find_first-key p [] d h = absurd (cc)
  find_first-key p (x ∷ xs) {o} d h = elim (Bool-cases (p x)) [
    | inl e ↦
        let same : x ≡ o = some-injective _ _ (rw e at h) in
        rw (ap key same) (rw (==_refl (key o)) (ap some same))
    | inr e ↦
        let later : find_first p xs ≡ some o = rw e at h in
        let other : key o ≢ key x = All-find_first (λ y. key y ≢ key x) p xs d.0 later in
        elim (Bool-cases (key x == key o)) [
          | inl s ↦ absurd (other (sym ((==_iff _ _).0 s)))
          | inr s ↦ rw s (find_first-key p xs d.1 later)
        ]
  ]

  -- A saved row takes the place of the one that its key finds.
  pub count_where-save :
      (q : A → Bool) (r : A) (xs : List A) {o : A}
      → find_first (λ x. key x == key r) xs ≡ some o
      → count_where q (save key r xs) + bit (q o) ≡ count_where q xs + bit (q r)
  unfolding find_first save count_where
  count_where-save q r [] h = absurd (cc)
  count_where-save q r (x ∷ xs) {o} h = elim (Bool-cases (key x == key r)) [
    | inl e ↦ let same : x ≡ o = some-injective _ _ (rw e at h) in rw (e, ← same) (omega arith)
    | inr e ↦ rw e (omega (arith, count_where-save q r xs (rw e at h)))
  ]

  pub count_where-save_new :
      (q : A → Bool) (r : A) (xs : List A)
      → Fresh key (key r) xs
      → count_where q (save key r xs) ≡ count_where q xs + bit (q r)
  unfolding count_where
  count_where-save_new q r xs f =
      rw (save-eq-append r xs f) (count_where-append q xs (r ∷ []) ∙ omega arith)

  -- A query that accepts the saved row in place of the one it found finds the saved row.
  pub find_first-save :
      (q : A → Bool) (r : A) (xs : List A) {o : A}
      → Distinct key xs
      → find_first q xs ≡ some o
      → key o ≡ key r
      → q r ≡ true
      → find_first q (save key r xs) ≡ some r
  unfolding find_first save
  find_first-save q r [] d h k t = absurd (cc)
  find_first-save q r (x ∷ xs) {o} d h k t = elim (Bool-cases (q x)) [
    | inl e ↦
        let same : x ≡ o = some-injective _ _ (rw e at h) in
        rw ((==_iff (key x) (key r)).1 (ap key same ∙ k)) (rw t refl)
    | inr e ↦
        let later : find_first q xs ≡ some o = rw e at h in
        let other : key o ≢ key x = All-find_first (λ y. key y ≢ key x) q xs d.0 later in
        elim (Bool-cases (key x == key r)) [
          | inl s ↦ absurd (other (k ∙ sym ((==_iff _ _).0 s)))
          | inr s ↦ rw s (rw e (find_first-save q r xs d.1 later k t))
        ]
  ]

  -- A new row does not change what an older row answers.
  pub find_first-save_old :
      (q : A → Bool) (r : A) (xs : List A) {o : A}
      → Fresh key (key r) xs
      → find_first q xs ≡ some o
      → find_first q (save key r xs) ≡ some o
  unfolding find_first save
  find_first-save_old q r [] f h = absurd (cc)
  find_first-save_old q r (x ∷ xs) {o} f h = elim (Bool-cases (key x == key r)) [
    | inl e ↦ absurd (f.0 ((==_iff _ _).0 e))
    | inr e ↦ rw e (elim (Bool-cases (q x)) [
      | inl t ↦ rw t (rw t at h)
      | inr t ↦ rw t (find_first-save_old q r xs f.1 (rw t at h))
    ])
  ]

module _ {ℓ} {A : Type ℓ} (key : A → ℕ) where
  -- A query that no older row answers finds the new row.
  pub find_first-save_new :
      (q : A → Bool) (r : A) (xs : List A)
      → Fresh key (key r) xs
      → All (λ x. q x ≡ false) xs
      → q r ≡ true
      → find_first q (save key r xs) ≡ some r
  unfolding find_first save
  find_first-save_new q r [] f a t = rw t refl
  find_first-save_new q r (x ∷ xs) f a t = elim (Bool-cases (key x == key r)) [
    | inl e ↦ absurd (f.0 ((==_iff _ _).0 e))
    | inr e ↦ rw e (rw (a.0) (find_first-save_new q r xs f.1 a.1 t))
  ]

  -- A query that neither the old nor the saved row answers does not see the write.
  pub find_first-save_unseen :
      (q : A → Bool) (r : A) (xs : List A) {o : A}
      → find_first (λ x. key x == key r) xs ≡ some o
      → q o ≡ false
      → q r ≡ false
      → find_first q (save key r xs) ≡ find_first q xs
  unfolding find_first save
  find_first-save_unseen q r [] h n m = absurd (cc)
  find_first-save_unseen q r (x ∷ xs) {o} h n m = elim (Bool-cases (key x == key r)) [
    | inl e ↦
        let same : x ≡ o = some-injective _ _ (rw e at h) in
        let old : q x ≡ false = ap q same ∙ n in rw (e, m, old)
    | inr e ↦
        rw e (
          ap (λ rest. if q x then some x else rest) (find_first-save_unseen q r xs (rw e at h) n m))
  ]

module _ {ℓ} {A : Type ℓ} (key : A → ℕ) where
  -- A query for one key does not find a saved row that fails it.
  pub find_first-save_gone :
      (q : A → Bool) (r : A) (xs : List A)
      → Distinct key xs
      → ((x : A) → q x ≡ true → key x ≡ key r)
      → q r ≡ false
      → find_first q (save key r xs) ≡ none
  unfolding find_first save
  find_first-save_gone q r [] d k n = rw n refl
  find_first-save_gone q r (x ∷ xs) d k n = elim (Bool-cases (key x == key r)) [
    | inl e ↦
        rw e (rw n (others xs (subst (λ (i : ℕ). All (λ y. key y ≢ i) xs) ((==_iff _ _).0 e) d.0)))
    | inr e ↦ elim (Bool-cases (q x)) [
      | inl t ↦ absurd (cc ((==_iff (key x) (key r)).1 (k x t), e))
      | inr t ↦ rw (e, t) (find_first-save_gone q r xs d.1 k n)
    ]
  ]
    where
      others : (ys : List A) → All (λ y. key y ≢ key r) ys → find_first q ys ≡ none
      others [] a = refl
      others (y ∷ ys) a = elim (Bool-cases (q y)) [
        | inl t ↦ absurd (a.0 (k y t))
        | inr t ↦ rw t (others ys a.1)
      ]

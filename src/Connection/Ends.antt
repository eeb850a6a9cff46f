-- ===== src/Connection/Ends.antt =====
-- The lookup of the ends of an edge: `_assert_owns_both` of app/services/connection_service.py.
use recall_ai.Base.{
  ℕ, Bool, true, false, ◌&&◌, Option, none, some, List, [], ◌∷◌, ◌≡◌, refl, ap, ◌∙◌, arith, ◌==◌,
  ==_refl, if◌then◌else◌, inl, inr, Bool-cases, All, Distinct, with_key, find_first, All-map,
  find_first-none_iff, found_key, select_where,
}
use recall_ai.Connection.Service.{owned_end}
use recall_ai.Vault.Row.{VaultItem, Db}
use recall_ai.Vault.Repository.{item_key, get, get_row, live_of, tenant, is_among, owned_items}

-- A lookup by id among the selected rows.
keep_if : (VaultItem → Bool) → Option VaultItem → Option VaultItem
keep_if q none = none
keep_if q (some i) = if q i then some i else none

find_key-select_where :
    (n : ℕ) (q : VaultItem → Bool) (xs : List VaultItem)
    → Distinct item_key xs
    → find_first (with_key item_key n) (select_where q xs)
      ≡ keep_if q (find_first (with_key item_key n) xs)
unfolding find_first select_where keep_if
find_key-select_where n q [] d = refl
find_key-select_where n q (x ∷ xs) d =
    let rest = find_key-select_where n q xs d.1 in
    elim (Bool-cases (x.id == n)) [
      | inl e ↦
          let later : All (λ y. with_key item_key n y ≡ false) xs =
            All-map _ _ xs (λ y h. ground (arith, h, e)) d.0 in
          let gone : find_first (with_key item_key n) xs ≡ none =
            (find_first-none_iff (with_key item_key n) xs).1 later in
          elim (Bool-cases (q x)) [
            | inl t ↦ rw (t, e, t) refl
            | inr t ↦ rw (t, e, t) (rest ∙ ap (keep_if q) gone)
          ]
      | inr e ↦ elim (Bool-cases (q x)) [ inl t ↦ rw (t, e) rest | inr t ↦ rw (t, e) rest ]
    ]

-- Each end is looked up as `get` would.
pub owned_end-eq-get :
    (n user_id s t : ℕ) (db : Db)
    → Distinct item_key db.items
    → is_among n (s ∷ t ∷ []) ≡ true
    → owned_end n user_id s t db ≡ get n user_id db
unfolding owned_end owned_items get get_row
owned_end-eq-get n user_id s t db d among =
    let q : VaultItem → Bool = λ i. is_among i.id (s ∷ t ∷ []) && tenant user_id i in
    find_key-select_where n q db.items d
    ∙ same (find_first (with_key item_key n) db.items) (λ i h. found_key item_key n db.items h)
  where
    same :
        (o : Option VaultItem)
        → ((i : VaultItem) → o ≡ some i → i.id ≡ n)
        → keep_if (λ i. is_among i.id (s ∷ t ∷ []) && tenant user_id i) o ≡ live_of user_id o
    same none k = unfold keep_if live_of in refl
    same (some i) k =
        let here : is_among i.id (s ∷ t ∷ []) ≡ true =
          ap (λ m. is_among m (s ∷ t ∷ [])) (k i refl) ∙ among in
        unfold keep_if live_of in ground (arith, here)

pub among_source : (s t : ℕ) → is_among s (s ∷ t ∷ []) ≡ true
unfolding is_among
among_source s t = ground (arith, ==_refl s)

pub among_target : (s t : ℕ) → is_among t (s ∷ t ∷ []) ≡ true
unfolding is_among
among_target s t = ground (arith, ==_refl t)

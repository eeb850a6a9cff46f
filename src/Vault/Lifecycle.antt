-- ===== src/Vault/Lifecycle.antt =====
-- Deleting and restoring: the trash of app/services/vault_service.py.
use recall_ai.Base.{
  ℕ, Bool, true, false, not, ◌||◌, Option, none, some, some-injective, ◌≡◌, ◌≢◌, refl, sym, ap, ◌∙◌,
  arith, ◌==◌, ==_iff, is_none, is_some, inl, inr, Bool-cases, find_key-save_other,
  find_key-save_same, found_key,
}
use recall_ai.Vault.Row.{VaultItem, Db}
use recall_ai.Vault.Repository.{item_key, flush_row, get_row, live_of, get}
use recall_ai.Vault.Trash.{trashed_of, get_trashed, trash, restore as restore_row}
use recall_ai.Vault.Service.{delete, delete_found, restore, restore_found}

pub none_of : {A : Type 0} (o : Option A) → is_some o ≡ false → o ≡ none
none_of none h = refl
none_of (some a) h = absurd (cc)

module _ (user_id : ℕ) where
  pub live_of-some :
      (o : Option VaultItem) {i : VaultItem}
      → live_of user_id o ≡ some i
      → (o ≡ some i) × (i.user_id ≡ user_id) × (i.deleted_at ≡ none)
  unfolding live_of
  live_of-some none h = absurd (cc)
  live_of-some (some x) {i} h =
      elim (Bool-cases (not (x.user_id == user_id) || is_some x.deleted_at)) [
        | inl e ↦ absurd (cc (rw e at h))
        | inr e ↦
            let same : x ≡ i = some-injective _ _ (rw e at h) in
            let own : (x.user_id == user_id) ≡ true = ground (arith, e) in
            let kept : is_some x.deleted_at ≡ false = ground (arith, e) in
            (
              ap some same,
              ap (λ (y : VaultItem). y.user_id) (sym same) ∙ (==_iff _ _).0 own,
              ap (λ (y : VaultItem). y.deleted_at) (sym same) ∙ none_of x.deleted_at kept,
            )
      ]

  pub trashed_of-some :
      (o : Option VaultItem) {i : VaultItem}
      → trashed_of user_id o ≡ some i
      → (o ≡ some i) × (i.user_id ≡ user_id) × (is_some i.deleted_at ≡ true) × (i.purged_at ≡ none)
  unfolding trashed_of
  trashed_of-some none h = absurd (cc)
  trashed_of-some (some x) {i} h =
      elim (Bool-cases
        (not (x.user_id == user_id) || (is_none x.deleted_at || is_some x.purged_at))) [
          | inl e ↦ absurd (cc (rw e at h))
          | inr e ↦
              let same : x ≡ i = some-injective _ _ (rw e at h) in
              let own : (x.user_id == user_id) ≡ true = ground (arith, e) in
              let kept : is_some x.purged_at ≡ false = ground (arith, e) in
              let gone : is_some x.deleted_at ≡ true = ground (arith, e) in
              (
                ap some same,
                ap (λ (y : VaultItem). y.user_id) (sym same) ∙ (==_iff _ _).0 own,
                ap (λ (y : VaultItem). is_some y.deleted_at) (sym same) ∙ gone,
                ap (λ (y : VaultItem). y.purged_at) (sym same) ∙ none_of x.purged_at kept,
              )
        ]

  pub live_of_own :
      (i : VaultItem)
      → i.user_id ≡ user_id
      → i.deleted_at ≡ none
      → live_of user_id (some i) ≡ some i
  unfolding live_of
  live_of_own i own live = ground (arith, own, live)

  trashed_of_own :
      (i : VaultItem)
      → i.user_id ≡ user_id
      → is_some i.deleted_at ≡ true
      → i.purged_at ≡ none
      → trashed_of user_id (some i) ≡ some i
  unfolding trashed_of
  trashed_of_own i own gone kept = ground (arith, own, gone, kept)

pub get_row-flush_row :
    (now : ℕ) (i : VaultItem) (db : Db)
    → get_row i.id (flush_row now i db) ≡ some (record i { updated_at = now })
unfolding get_row flush_row
get_row-flush_row now i db = find_key-save_same item_key (record i { updated_at = now }) db.items

pub get_row-flush_row_other :
    (n now : ℕ) (i : VaultItem) (db : Db) → i.id ≢ n → get_row n (flush_row now i db) ≡ get_row n db
unfolding get_row flush_row
get_row-flush_row_other n now i db other =
    find_key-save_other item_key n (record i { updated_at = now }) db.items other

pub row_id : (n : ℕ) (db : Db) {i : VaultItem} → get_row n db ≡ some i → i.id ≡ n
unfolding get_row
row_id n db h = found_key item_key n db.items h

-- A live memory of the user's, that was not purged.
module _ (item_id user_id : ℕ) (db : Db) (i : VaultItem) (mine : get item_id user_id db ≡ some i)
    (whole : i.purged_at ≡ none) (now later : ℕ) where
  abbrev pub deleted : Db
  deleted = (delete now item_id user_id db).1

  abbrev pub binned : VaultItem
  binned = record i { deleted_at = some now; updated_at = now }

  facts : (get_row item_id db ≡ some i) × (i.user_id ≡ user_id) × (i.deleted_at ≡ none)
  unfolding get
  facts = live_of-some user_id (get_row item_id db) mine

  pub delete_found_lem : delete now item_id user_id db ≡ (true, trash now i db)
  unfolding delete
  delete_found_lem = ap (λ o. delete_found now o db) mine

  pub in_trash : get_row item_id deleted ≡ some binned
  in_trash =
      ap (λ (o : Bool × Db). get_row item_id o.1) delete_found_lem
      ∙ unfold trash in
        ap (λ (n : ℕ). get_row n (flush_row now (record i { deleted_at = some now }) db))
          (sym (row_id item_id db facts.0))
        ∙ get_row-flush_row now (record i { deleted_at = some now }) db

  trashed_there : get_trashed item_id user_id deleted ≡ some binned
  unfolding get_trashed
  trashed_there =
      ap (trashed_of user_id) in_trash ∙ trashed_of_own user_id binned facts.1 refl whole

  hidden : get item_id user_id deleted ≡ none
  unfolding get
  hidden = ap (live_of user_id) in_trash ∙ unfold live_of in ground (arith, facts.1)

  abbrev restored : Option VaultItem × Db
  restored = restore later item_id user_id deleted

  restore_found_lem : restored ≡ (
    some (record i { deleted_at = none; updated_at = later }),
    restore_row later binned deleted,
  )
  unfolding restore
  restore_found_lem = ap (λ o. restore_found later o deleted) trashed_there

  back_again :
      get item_id user_id (restore_row later binned deleted)
      ≡ some (record i { deleted_at = none; updated_at = later })
  unfolding get restore_row
  back_again =
      ap
        (λ (n : ℕ).
          live_of user_id
            (get_row n (flush_row later (record binned { deleted_at = none }) deleted)))
        (sym (row_id item_id db facts.0))
      ∙ ap (live_of user_id) (get_row-flush_row later (record binned { deleted_at = none }) deleted)
      ∙ live_of_own user_id (record i { deleted_at = none; updated_at = later }) facts.1 refl

  kept :
      {A : Type 0} (column : Db → A)
      → ((n : ℕ) (x : VaultItem) (y : Db) → column (flush_row n x y) ≡ column y)
      → column restored.1 ≡ column db
  kept column same =
      ap (λ (o : Option VaultItem × Db). column o.1) restore_found_lem
      ∙ unfold restore_row in
        same later (record binned { deleted_at = none }) deleted
        ∙ ap (λ (o : Bool × Db). column o.1) delete_found_lem
        ∙ unfold trash in same now (record i { deleted_at = some now }) db

  -- The row that a delete marks and a restore brings back, and what stays beside it.
  pub restore-delete_row :
      let db' = (delete now item_id user_id db).1 in
      let back = restore later item_id user_id db' in
      ((delete now item_id user_id db).0 ≡ true)
      × (get item_id user_id db' ≡ none)
      × (back.0 ≡ some (record i { updated_at = later }))
      × (get item_id user_id back.1 ≡ some (record i { updated_at = later }))
      × (back.1.chunks ≡ db.chunks)
      × (back.1.connections ≡ db.connections)
      × (back.1.objects ≡ db.objects)
  restore-delete_row =
      let same : record i { deleted_at = none; updated_at = later }
          ≡ record i { updated_at = later } =
        ap (λ t. let r : VaultItem = record i { deleted_at = t; updated_at = later } in r)
          (sym facts.2) in
      let row = ap some same in
      (
        ap (λ (o : Bool × Db). o.0) delete_found_lem,
        hidden,
        ap (λ (o : Option VaultItem × Db). o.0) restore_found_lem ∙ row,
        ap (λ (o : Option VaultItem × Db). get item_id user_id o.1) restore_found_lem
            ∙ back_again
            ∙ row,
        kept (λ x. x.chunks) (λ n x y. unfold flush_row in refl),
        kept (λ x. x.connections) (λ n x y. unfold flush_row in refl),
        kept (λ x. x.objects) (λ n x y. unfold flush_row in refl),
      )

-- ===== src/Vault/Purge.antt =====
-- What a purge leaves of a memory: `_purge` of app/services/vault_service.py.
use recall_ai.Base.{
  ℕ, String, Bool, true, false, none, some, List, [], ◌∷◌, ◌++◌, ◌≡◌, ◌≢◌, sym, ap, ◌∙◌, arith,
  str_eq, All, All-delete_where, find_first-none_iff, find_first-delete_where_self, delete_where,
}
use mathlib.Core.Path.{subst}
use recall_ai.Vault.Row.{VaultItem, Db}
use recall_ai.Vault.Repository.{flush_row, get_row}
use recall_ai.Vault.Trash.{trashed_of, get_trashed, purge as purge_row, scrub, chunk_of, touches}
use recall_ai.Vault.Service.{
  Settings, restore, restore_found, purge_item, purge, purge_found, key_list, delete_objects,
}
use recall_ai.Vault.Lifecycle.{trashed_of-some, get_row-flush_row, get_row-flush_row_other, row_id}

deleted_where {ℓ} :
    {A : Type ℓ} (p : A → Bool) (xs : List A) → All (λ x. p x ≡ false) (delete_where p xs)
deleted_where p xs =
    (find_first-none_iff p (delete_where p xs)).0 (find_first-delete_where_self p xs)

All-delete_objects :
    (P : String → Type 0) (ks objects : List String)
    → All P objects
    → All P (delete_objects ks objects)
unfolding delete_objects
All-delete_objects P [] objects a = a
All-delete_objects P (k ∷ ks) objects a =
    All-delete_objects P ks _ (All-delete_where P (λ o. str_eq o k) objects a)

-- No object has one of the keys.
abbrev pub Absent : List String → List String → Type 0
Absent ks objects = All (λ k. All (λ o. str_eq o k ≡ false) objects) ks

delete_objects-Absent : (ks objects : List String) → Absent ks (delete_objects ks objects)
unfolding delete_objects
delete_objects-Absent [] objects = tt
delete_objects-Absent (k ∷ ks) objects =
    let rest = delete_where (λ o. str_eq o k) objects in
    (
      All-delete_objects _ ks rest (deleted_where (λ o. str_eq o k) objects),
      delete_objects-Absent ks rest,
    )

pub get_row-purge_item :
    (s : Settings) (now : ℕ) (i : VaultItem) (db : Db)
    → get_row i.id (purge_item s now i db) ≡ some (record (scrub now i) { updated_at = now })
unfolding purge_item purge_row get_row
get_row-purge_item s now i db = unfold flush_row scrub in get_row-flush_row now (scrub now i) db

pub get_row-purge_item_other :
    (n : ℕ) (s : Settings) (now : ℕ) (i : VaultItem) (db : Db)
    → i.id ≢ n
    → get_row n (purge_item s now i db) ≡ get_row n db
unfolding purge_item purge_row get_row
get_row-purge_item_other n s now i db other =
    unfold flush_row scrub in get_row-flush_row_other n now (scrub now i) db other

-- A memory in the caller's trash.
module _ (s : Settings) (now item_id user_id : ℕ) (db : Db) (i : VaultItem)
    (there : get_trashed item_id user_id db ≡ some i) where
  purged_lem : purge s now item_id user_id db ≡ (true, purge_item s now i db)
  unfolding purge
  purged_lem = ap (λ o. purge_found s now o db) there

  named : i.id ≡ item_id
  unfolding get_trashed
  named = row_id item_id db (trashed_of-some user_id (get_row item_id db) there).0

  abbrev purged : Db
  purged = (purge s now item_id user_id db).1

  left : get_row item_id purged ≡ some (record (scrub now i) { updated_at = now })
  left =
      ap (λ (o : Bool × Db). get_row item_id o.1) purged_lem
      ∙ ap (λ (n : ℕ). get_row n (purge_item s now i db)) (sym named)
      ∙ get_row-purge_item s now i db

  not_in_trash : get_trashed item_id user_id purged ≡ none
  unfolding get_trashed
  not_in_trash = ap (trashed_of user_id) left ∙ unfold trashed_of scrub in ground arith

  no_chunks : All (λ c. chunk_of i.id c ≡ false) (purge_item s now i db).chunks
  unfolding purge_item purge_row
  no_chunks = deleted_where (chunk_of i.id) _

  no_edges : All (λ c. touches i.id c ≡ false) (purge_item s now i db).connections
  unfolding purge_item purge_row
  no_edges = deleted_where (touches i.id) _

  no_objects :
      s.has_bucket ≡ true
      → Absent (key_list i.storage_key ++ key_list i.thumbnail_key) (purge_item s now i db).objects
  unfolding purge_item
  no_objects h =
      let keys = key_list i.storage_key ++ key_list i.thumbnail_key in
      rw h (delete_objects-Absent keys _)

  -- A purge of a memory in the caller's trash is final: the row is left without its content, it
  -- cannot be restored, and no chunk, no connection and, with a bucket, no object of it is left.
  pub purge_is_final :
      let db' = (purge s now item_id user_id db).1 in
      ((purge s now item_id user_id db).0 ≡ true)
      × (get_row item_id db' ≡ some (record (scrub now i) { updated_at = now }))
      × ((later : ℕ) → restore later item_id user_id db' ≡ (none, db'))
      × All (λ c. chunk_of item_id c ≡ false) db'.chunks
      × All (λ c. touches item_id c ≡ false) db'.connections
      × (s.has_bucket ≡ true
          → Absent (key_list i.storage_key ++ key_list i.thumbnail_key) db'.objects)
  purge_is_final = (
    ap (λ (o : Bool × Db). o.0) purged_lem,
    left,
    λ later. unfold restore in ap (λ o. restore_found later o purged) not_in_trash,
    subst (λ (o : Bool × Db). All (λ c. chunk_of item_id c ≡ false) o.1.chunks) (sym purged_lem)
        (subst (λ (n : ℕ). All (λ c. chunk_of n c ≡ false) (purge_item s now i db).chunks) named
          no_chunks),
    subst (λ (o : Bool × Db). All (λ c. touches item_id c ≡ false) o.1.connections) (sym purged_lem)
        (subst (λ (n : ℕ). All (λ c. touches n c ≡ false) (purge_item s now i db).connections) named
          no_edges),
    λ h.
        subst
          (λ (o : Bool × Db).
            Absent (key_list i.storage_key ++ key_list i.thumbnail_key) o.1.objects)
          (sym purged_lem) (no_objects h),
  )

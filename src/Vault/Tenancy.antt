-- ===== src/Vault/Tenancy.antt =====
-- Whose rows an operation of app/services/vault_service.py may write.
use recall_ai.Base.{
  ℕ, String, Bool, true, Option, none, some, some-injective, List, [], ◌∷◌, ◌≡◌, ◌≢◌, refl, sym, ap,
  ◌∙◌, arith, ◌==◌, ◌&&◌, inl, inr, Bool-cases, All, All-map, select_where, order_asc,
  All-order_asc, All-take, ◌+◌, ◌||◌, not, ltb, Distinct, found_select_where,
}
use recall_ai.Highlight.{Texts}
use recall_ai.Vault.Row.{VaultItem, Db, pending, processing, completed, seconds}
use recall_ai.Vault.Repository.{item_key, has_status, flush_row, get_row, get}
use recall_ai.Vault.Trash.{
  get_trashed, trash, restore as restore_row, is_trashed, deleted_time, list_trash_rows,
}
use recall_ai.Vault.Service.{
  Settings, Draw, enqueue, edited, edit_found, update_content, delete, delete_found, restore,
  restore_found, purge_item, purge, purge_found, purge_all, empty_trash,
}
use recall_ai.Vault.Reprocess.{
  requeued, is_retranscribable, is_revideoable, reprocess, reprocess_any, reprocess_found,
}
use recall_ai.Vault.Lifecycle.{live_of-some, trashed_of-some, row_id, get_row-flush_row_other}
use recall_ai.Vault.Retry.{requeued_keeps}
use recall_ai.Vault.Purge.{get_row-purge_item_other}

-- A row of somebody else's.
module _ (n user_id : ℕ) (db : Db) (i : VaultItem) (held : get_row n db ≡ some i)
    (theirs : i.user_id ≢ user_id) where
  abbrev Kept : Db → Type 0
  Kept d = get_row n d ≡ some i

  -- It is not among the caller's.
  apart : (m : ℕ) {x : VaultItem} → get_row m db ≡ some x → x.user_id ≡ user_id → x.id ≢ n
  apart m {x} e own same =
      let there : get_row n db ≡ some x =
        ap (λ (k : ℕ). get_row k db) (sym same ∙ row_id m db e) ∙ e in
      let one : i ≡ x = some-injective _ _ (sym held ∙ there) in
      theirs (ap (λ (y : VaultItem). y.user_id) one ∙ own)

  flush-Kept : (now : ℕ) (x : VaultItem) → x.id ≢ n → Kept (flush_row now x db)
  flush-Kept now x other = get_row-flush_row_other n now x db other ∙ held

  live_apart : (m : ℕ) {x : VaultItem} → get m user_id db ≡ some x → x.id ≢ n
  unfolding get
  live_apart m e = let f = live_of-some user_id (get_row m db) e in apart m f.0 f.1

  trashed_apart : (m : ℕ) {x : VaultItem} → get_trashed m user_id db ≡ some x → x.id ≢ n
  unfolding get_trashed
  trashed_apart m e = let f = trashed_of-some user_id (get_row m db) e in apart m f.0 f.1

  delete-Kept :
      (now m : ℕ) (o : Option VaultItem) → get m user_id db ≡ o → Kept (delete_found now o db).1
  unfolding delete_found
  delete-Kept now m none e = held
  delete-Kept now m (some x) e =
      unfold trash in flush-Kept now (record x { deleted_at = some now }) (live_apart m e)

  restore-Kept :
      (now m : ℕ) (o : Option VaultItem)
      → get_trashed m user_id db ≡ o
      → Kept (restore_found now o db).1
  unfolding restore_found
  restore-Kept now m none e = held
  restore-Kept now m (some x) e =
      unfold restore_row in flush-Kept now (record x { deleted_at = none }) (trashed_apart m e)

  purge-Kept :
      (s : Settings) (now m : ℕ) (o : Option VaultItem)
      → get_trashed m user_id db ≡ o
      → Kept (purge_found s now o db).1
  unfolding purge_found
  purge-Kept s now m none e = held
  purge-Kept s now m (some x) e = get_row-purge_item_other n s now x db (trashed_apart m e) ∙ held

  edit-Kept :
      (t : Texts) (now : ℕ) (stamp document content : String) (m : ℕ) (o : Option VaultItem)
      → get m user_id db ≡ o
      → Kept (edit_found t now stamp document content o db).1
  unfolding edit_found
  edit-Kept t now stamp document content m none e = held
  edit-Kept t now stamp document content m (some x) e =
      let other : (edited t now stamp document content x).id ≢ n =
        unfold edited in live_apart m e in
      flush-Kept now (edited t now stamp document content x) other

  enqueue-Kept : (d : Draw) (m : ℕ) (db' : Db) → Kept db' → Kept (enqueue d m db')
  unfolding enqueue get_row
  enqueue-Kept d m db' h = elim (Bool-cases d.queue_up) [ inl e ↦ rw e h | inr e ↦ rw e h ]

  reprocess-Kept :
      (s : Settings) (d : Draw) (stamp : String) (pinned : Option String) (m : ℕ)
      (o : Option VaultItem)
      → get m user_id db ≡ o
      → Kept (reprocess_any s d stamp pinned o db).1
  unfolding reprocess_any reprocess_found
  reprocess-Kept s d stamp pinned m none e = held
  reprocess-Kept s d stamp pinned m (some x) e =
      let other : (requeued stamp pinned x).id ≢ n =
        λ q. live_apart m e (sym (requeued_keeps stamp pinned x).0 ∙ q) in
      let done =
        enqueue-Kept d x.id (flush_row d.now (requeued stamp pinned x) db)
          (flush-Kept d.now (requeued stamp pinned x) other) in
      elim (Bool-cases (has_status pending x || has_status processing x)) [
        | inl a ↦ rw a held
        | inr a ↦
            elim (Bool-cases
              (has_status completed x && not (is_retranscribable x || is_revideoable s x))) [
                | inl b ↦ rw a (rw b held)
                | inr b ↦
                    elim (Bool-cases
                      (ltb d.now (x.updated_at + seconds s.reprocess_cooldown_seconds))) [
                        | inl c ↦ rw a (rw b (rw c held))
                        | inr c ↦ rw a (rw b (rw c done))
                      ]
              ]
      ]

pub get_row-purge_all_other :
    (n : ℕ) (s : Settings) (now : ℕ) (rows : List VaultItem) (db : Db)
    → All (λ x. x.id ≢ n) rows
    → get_row n (purge_all s now rows db) ≡ get_row n db
unfolding purge_all
get_row-purge_all_other n s now [] db a = refl
get_row-purge_all_other n s now (x ∷ rows) db a =
    get_row-purge_all_other n s now rows (purge_item s now x db) a.1
    ∙ get_row-purge_item_other n s now x db a.0

-- The rows of the caller's trash are the caller's.
trash_rows_own :
    (user_id limit : ℕ) (db : Db)
    → Distinct item_key db.items
    → All
        (λ x. (get_row x.id db ≡ some x) × (x.user_id ≡ user_id))
        (list_trash_rows user_id limit db)
unfolding list_trash_rows get_row
trash_rows_own user_id limit db d =
    let mine : VaultItem → Bool = λ i. i.user_id == user_id && is_trashed i in
    let chosen = select_where mine db.items in
    let own : (x : VaultItem) → mine x ≡ true → x.user_id ≡ user_id = λ x h. ground (arith, h) in
    All-map _ _ _ (λ x h. (h.0, own x h.1))
      (All-take _ limit (order_asc deleted_time chosen)
        ((All-order_asc deleted_time _ chosen).0 (found_select_where item_key mine db.items d)))

-- No operation of the vault that names a user writes a row of another's: it is there as it was after
-- a delete, a restore, a purge, an edit, a retry and an emptied trash, whatever item is named. The ids
-- are distinct.
pub owner_only :
    (n user_id : ℕ) (db : Db) (i : VaultItem)
    → Distinct item_key db.items
    → get_row n db ≡ some i
    → i.user_id ≢ user_id
    → (s : Settings) (d : Draw) (item_id : ℕ)
    → (get_row n (delete d.now item_id user_id db).1 ≡ some i)
      × (get_row n (restore d.now item_id user_id db).1 ≡ some i)
      × (get_row n (purge s d.now item_id user_id db).1 ≡ some i)
      × ((t : Texts) (stamp document content : String)
          → get_row n (update_content t d.now stamp document content item_id user_id db).1 ≡ some i)
      × ((stamp : String) (pinned : Option String)
          → get_row n (reprocess s d stamp pinned item_id user_id db).1 ≡ some i)
      × (get_row n (empty_trash s d.now user_id db).1 ≡ some i)
unfolding delete restore purge update_content reprocess empty_trash
owner_only n user_id db i distinct held theirs s d m =
    let rows = list_trash_rows user_id s.trash_purge_batch db in
    let other : All (λ x. x.id ≢ n) rows =
      All-map _ _ rows (λ x h. apart n user_id db i held theirs x.id h.0 h.1)
        (trash_rows_own user_id s.trash_purge_batch db distinct) in
    (
      delete-Kept n user_id db i held theirs d.now m (get m user_id db) refl,
      restore-Kept n user_id db i held theirs d.now m (get_trashed m user_id db) refl,
      purge-Kept n user_id db i held theirs s d.now m (get_trashed m user_id db) refl,
      λ t stamp document content.
          edit-Kept n user_id db i held theirs t d.now stamp document content m (get m user_id db)
            refl,
      λ stamp pinned.
          reprocess-Kept n user_id db i held theirs s d stamp pinned m (get m user_id db) refl,
      get_row-purge_all_other n s d.now rows db other ∙ held,
    )

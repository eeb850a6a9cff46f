-- ===== src/Vault/Trash.antt =====
-- The trash stage of app/repositories/vault.py: which rows are in it, and `trash`, `restore` and
-- `purge`.
use recall_ai.Base.{
  ℕ, Bool, not, ◌&&◌, ◌||◌, Option, none, some, List, [], ltb, ◌==◌, is_none, is_some,
  if◌then◌else◌, take, select_where, delete_where, order_desc, order_asc,
}
use recall_ai.Connection.Row.{MemoryConnection}
use recall_ai.Vault.Row.{VaultItem, VaultChunk, Db}
use recall_ai.Vault.Repository.{flush_row, get_row, page}

-- In the trash: deleted, and not purged.
abbrev pub is_trashed : VaultItem → Bool
is_trashed i = is_some i.deleted_at && is_none i.purged_at

unfoldable pub trashed_of : ℕ → Option VaultItem → Option VaultItem
trashed_of user_id none = none
trashed_of user_id (some i) =
    if not (i.user_id == user_id) || (is_none i.deleted_at || is_some i.purged_at)
    then none
    else some i

unfoldable pub get_trashed : ℕ → ℕ → Db → Option VaultItem
unfolding trashed_of get_row
get_trashed item_id user_id db = trashed_of user_id (get_row item_id db)

-- A row without a date of deletion is not among these.
abbrev pub deleted_time : VaultItem → ℕ
deleted_time i = elim i.deleted_at [ none ↦ 0 | some t ↦ t ]

unfoldable pub list_trashed : ℕ → ℕ → ℕ → Db → List VaultItem × ℕ
unfolding page
list_trashed user_id limit offset db =
    page
      (order_desc deleted_time (select_where (λ i. i.user_id == user_id && is_trashed i) db.items))
      limit offset

unfoldable pub list_trash_rows : ℕ → ℕ → Db → List VaultItem
list_trash_rows user_id limit db =
    take limit
      (order_asc deleted_time (select_where (λ i. i.user_id == user_id && is_trashed i) db.items))

unfoldable pub list_expired_trash : ℕ → ℕ → Db → List VaultItem
list_expired_trash cutoff limit db = take limit (
    order_asc deleted_time
      (select_where (λ i. is_trashed i && ltb (deleted_time i) cutoff) db.items))

unfoldable pub trash : ℕ → VaultItem → Db → Db
unfolding flush_row
trash now i db = flush_row now (record i { deleted_at = some now }) db

unfoldable pub restore : ℕ → VaultItem → Db → Db
unfolding flush_row
restore now i db = flush_row now (record i { deleted_at = none }) db

-- What is left of a purged row.
unfoldable pub scrub : ℕ → VaultItem → VaultItem
scrub now i = record i {
  purged_at = some now;
  deleted_at = if is_none i.deleted_at then some now else i.deleted_at;
  title = none;
  summary = none;
  content = none;
  source_url = none;
  thumbnail_url = none;
  language = none;
  ai_tags = [];
  ai_highlights = [];
  ai_label = none;
  ai_category = none;
  item_metadata = [];
  processing_error = none;
  storage_key = none;
  thumbnail_key = none;
  file_name = none;
  file_size = none;
  mime_type = none;
}

abbrev pub chunk_of : ℕ → VaultChunk → Bool
chunk_of item_id c = c.vault_item_id == item_id

abbrev pub touches : ℕ → MemoryConnection → Bool
touches item_id c = c.source_item_id == item_id || c.target_item_id == item_id

unfoldable pub purge : ℕ → VaultItem → Db → Db
unfolding flush_row scrub
purge now i db =
    let scrubbed = flush_row now (scrub now i) db in
    record scrubbed {
      chunks = delete_where (chunk_of i.id) scrubbed.chunks;
      connections = delete_where (touches i.id) scrubbed.connections;
    }

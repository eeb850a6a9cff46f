-- ===== src/Vault/Service.antt =====
-- app/services/vault_service.py, without uploads: saving links and notes, editing, retrying, and the
-- trash.
use recall_ai.Base.{
  ℕ, ◌-◌, String, Bool, true, false, Option, none, some, List, [], ◌∷◌, ◌++◌, str_eq, if◌then◌else◌,
  delete_where, length, Value, str, Dict, put_key,
}
use recall_ai.Highlight.{Texts, keep_verbatim}
use recall_ai.Vault.Row.{ContentType, article, note, pending, VaultItem, Db, days}
use recall_ai.Vault.Repository.{add, flush_row, get, get_by_source_url}
use recall_ai.Vault.Trash.{
  get_trashed, trash, restore as restore_row, purge as purge_row, list_trash_rows,
  list_expired_trash,
}

-- `has_bucket`: a bucket is configured, and it answers.
pub record Settings : Type 0 where
  pub has_bucket : Bool
  pub trash_purge_batch : ℕ
  pub trash_retention_days : ℕ
  pub reprocess_cooldown_seconds : ℕ
  pub video_understanding_enabled : Bool

-- What one request draws: the clock, the id of a new row, and whether the queue answers.
pub record Draw : Type 0 where
  pub now : ℕ
  pub row_id : ℕ
  pub queue_up : Bool

-- `_enqueue`: a queue that does not answer is logged, and the row stays pending.
unfoldable pub enqueue : Draw → ℕ → Db → Db
enqueue d item_id db = if d.queue_up then record db { queue = db.queue ++ item_id ∷ [] } else db

-- A new row of the defaults.
abbrev pub new_item : Draw → ℕ → ContentType → Dict → VaultItem
new_item d user_id type metadata = record {
  id = d.row_id;
  user_id = user_id;
  type = type;
  source_url = none;
  title = none;
  summary = none;
  content = none;
  thumbnail_url = none;
  language = none;
  storage_key = none;
  thumbnail_key = none;
  file_name = none;
  file_size = none;
  mime_type = none;
  item_metadata = metadata;
  ai_tags = [];
  ai_category = none;
  ai_label = none;
  ai_highlights = [];
  processing_status = pending;
  processing_error = none;
  retry_count = 0;
  processed_at = none;
  created_at = d.now;
  updated_at = d.now;
  deleted_at = none;
  purged_at = none;
}

-- A missing or empty text.
abbrev pub is_blank : Option String → Bool
is_blank none = true
is_blank (some s) = str_eq s ""

abbrev pub link_metadata : Option String → Dict → Dict
link_metadata title metadata =
    if is_blank title then metadata else put_key "title_source" (str "user") metadata

unfoldable pub save_new_url :
    Draw → Bool → ℕ → String → Option String → Dict → Db → (VaultItem × Bool) × Db
unfolding add enqueue
save_new_url d enqueues user_id url title metadata db =
    let i = record (new_item d user_id article (link_metadata title metadata)) {
      source_url = some url;
      title = title;
    } in
    let db' = add i db in ((i, true), if enqueues then enqueue d i.id db' else db')

abbrev pub save_found_url :
    Draw
    → Bool
    → ℕ
    → String
    → Option String
    → Dict
    → Option VaultItem
    → Db
    → (VaultItem × Bool) × Db
save_found_url d enqueues user_id url title metadata none db =
    save_new_url d enqueues user_id url title metadata db
save_found_url d enqueues user_id url title metadata (some i) db = ((i, false), db)

-- `canonical` is `canonical_url` of app/core/urls.py, over the URL parser of the standard library.
unfoldable pub save_url :
    (String → String)
    → Draw
    → Bool
    → ℕ
    → String
    → Option String
    → Dict
    → Db
    → (VaultItem × Bool) × Db
unfolding save_new_url get_by_source_url
save_url canonical d enqueues user_id url title metadata db =
    let u = canonical url in
    save_found_url d enqueues user_id u title metadata (get_by_source_url user_id u db) db

unfoldable pub create_note : Draw → Bool → ℕ → String → String → Dict → Db → VaultItem × Db
unfolding add enqueue
create_note d enqueues user_id title content metadata db =
    let i = record (new_item d user_id note metadata) {
      title = some title;
      content = some content;
    } in
    let db' = add i db in (i, if enqueues then enqueue d i.id db' else db')

-- `update_content`, whose `document` and `content` are what `editor_doc.sanitize` gives.
unfoldable pub edited : Texts → ℕ → String → String → String → VaultItem → VaultItem
unfolding keep_verbatim
edited t now stamp document content i = record i {
  content = some content;
  ai_highlights = keep_verbatim t i.ai_highlights content;
  item_metadata =
      put_key "content_edited_at" (str stamp)
        (put_key "editor_doc" (Value.json document) i.item_metadata);
}

unfoldable pub edit_found :
    Texts → ℕ → String → String → String → Option VaultItem → Db → Option VaultItem × Db
unfolding edited flush_row
edit_found t now stamp document content none db = (none, db)
edit_found t now stamp document content (some i) db =
    let i' = edited t now stamp document content i in (some i', flush_row now i' db)

unfoldable pub update_content :
    Texts → ℕ → String → String → String → ℕ → ℕ → Db → Option VaultItem × Db
unfolding edit_found get
update_content t now stamp document content item_id user_id db =
    edit_found t now stamp document content (get item_id user_id db) db

unfoldable pub delete_found : ℕ → Option VaultItem → Db → Bool × Db
unfolding trash
delete_found now none db = (false, db)
delete_found now (some i) db = (true, trash now i db)

unfoldable pub delete : ℕ → ℕ → ℕ → Db → Bool × Db
unfolding get delete_found
delete now item_id user_id db = delete_found now (get item_id user_id db) db

unfoldable pub restore_found : ℕ → Option VaultItem → Db → Option VaultItem × Db
unfolding restore_row
restore_found now none db = (none, db)
restore_found now (some i) db =
    (some (record i { deleted_at = none; updated_at = now }), restore_row now i db)

unfoldable pub restore : ℕ → ℕ → ℕ → Db → Option VaultItem × Db
unfolding get_trashed restore_found
restore now item_id user_id db = restore_found now (get_trashed item_id user_id db) db

-- The keys of the row's objects, read before the scrub clears them.
abbrev pub key_list : Option String → List String
key_list none = []
key_list (some k) = if str_eq k "" then [] else k ∷ []

-- `storage.delete`, which removes every version.
unfoldable pub delete_objects : List String → List String → List String
delete_objects [] objects = objects
delete_objects (k ∷ ks) objects = delete_objects ks (delete_where (λ o. str_eq o k) objects)

-- `_purge`.
unfoldable pub purge_item : Settings → ℕ → VaultItem → Db → Db
unfolding purge_row delete_objects
purge_item s now i db =
    let keys = key_list i.storage_key ++ key_list i.thumbnail_key in
    let db' = purge_row now i db in
    record db' { objects = if s.has_bucket then delete_objects keys db'.objects else db'.objects }

unfoldable pub purge_found : Settings → ℕ → Option VaultItem → Db → Bool × Db
unfolding purge_item
purge_found s now none db = (false, db)
purge_found s now (some i) db = (true, purge_item s now i db)

unfoldable pub purge : Settings → ℕ → ℕ → ℕ → Db → Bool × Db
unfolding get_trashed purge_found
purge s now item_id user_id db = purge_found s now (get_trashed item_id user_id db) db

unfoldable pub purge_all : Settings → ℕ → List VaultItem → Db → Db
unfolding purge_item
purge_all s now [] db = db
purge_all s now (i ∷ rows) db = purge_all s now rows (purge_item s now i db)

unfoldable pub empty_trash : Settings → ℕ → ℕ → Db → ℕ × Db
unfolding purge_all list_trash_rows
empty_trash s now user_id db =
    let rows = list_trash_rows user_id s.trash_purge_batch db in
    (length rows, purge_all s now rows db)

unfoldable pub purge_expired : Settings → ℕ → Db → ℕ × Db
unfolding purge_all list_expired_trash
purge_expired s now db =
    let rows = list_expired_trash (now - days s.trash_retention_days) s.trash_purge_batch db in
    (length rows, purge_all s now rows db)

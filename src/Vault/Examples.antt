-- ===== src/Vault/Examples.antt =====
-- Runs of the vault service, and its theorems at concrete tables.
use recall_ai.Base.{
  length, ◌≤◌, ◌<◌, arith, false, Distinct, ℕ, ◌-◌, ◌*◌, ◌≢◌, ◌+◌, String, true, none, some, Option,
  List, [], ◌∷◌, ◌++◌, ◌≡◌, refl, ok, err, All, min, count_where, str, is_none,
}
use recall_ai.Connection.Row.{MemoryConnection, user, confirmed}
use recall_ai.Proposal.Row.{related_to}
use recall_ai.Highlight.{Texts}
use recall_ai.Vault.Row.{VaultItem, Db, article, failed, days}
use recall_ai.Vault.Repository.{item_key, get, get_row}
use recall_ai.Vault.Trash.{scrub, chunk_of, touches, trash}
use recall_ai.Vault.Service.{
  Settings, Draw, new_item, delete, restore, purge, empty_trash, update_content, save_url,
}
use recall_ai.Vault.Reprocess.{already_running, requeued, reprocess}
use recall_ai.Vault.Hidden.{Unread, restore-delete}
use recall_ai.Vault.Purge.{Absent, purge_is_final}
use recall_ai.Vault.Sweep.{is_expired, cutoff_at, sweeps, sweeps_drain}
use recall_ai.Vault.Tenancy.{owner_only}
use recall_ai.Vault.Search.{Narrow, is_excluded, search_semantic}
use recall_ai.Vault.Scope.{search_stays_in_scope}
use recall_ai.Vault.Saving.{save_url_once}
use recall_ai.Vault.Retry.{queued, reprocess_once}

abbrev settings : Settings
settings = record {
  has_bucket = true;
  trash_purge_batch = 2;
  trash_retention_days = 30;
  reprocess_cooldown_seconds = 60;
  video_understanding_enabled = true;
}

abbrev draw : ℕ → ℕ → Draw
draw now row_id = record { now = now; row_id = row_id; queue_up = true }

-- Two memories of one user, a memory of another's, and an edge between the first two.
abbrev article_item : VaultItem
article_item = record (new_item (draw 5 10) 1 article []) {
  source_url = some "a";
  storage_key = some "k";
  processing_status = failed;
}

abbrev trashed_item : VaultItem
trashed_item = record (new_item (draw 6 11) 1 article []) {
  deleted_at = some 7;
  storage_key = some "k2";
}

abbrev other_item : VaultItem
other_item = new_item (draw 7 12) 2 article []

abbrev edge : MemoryConnection
edge = record {
  id = 1;
  user_id = 1;
  source_item_id = 10;
  target_item_id = 11;
  relation = related_to;
  origin = user;
  status = confirmed;
  score = none;
  note = none;
  ai_reason = none;
  created_at = 8;
  confirmed_at = some 8;
  dismissed_at = none;
}

abbrev full : Db
full = record {
  items = article_item ∷ trashed_item ∷ other_item ∷ [];
  chunks =
      record {
        vault_item_id = 11;
        user_id = 1;
        chunk_index = 0;
        content = "c";
        embedding = none;
        token_count = none;
      }
      ∷ [];
  connections = edge ∷ [];
  runs = [];
  objects = "k" ∷ "k2" ∷ [];
  queue = [];
}

distinct : Distinct item_key full.items
distinct =
    ((λ e. omega (arith, e), (λ e. omega (arith, e), tt)), ((λ e. omega (arith, e), tt), (tt, tt)))

restore-delete_example :
    let db' = (delete 20 10 1 full).1 in
    let back = restore 30 10 1 db' in
    ((delete 20 10 1 full).0 ≡ true)
    × ((reader : ℕ) → Unread 10 reader db')
    × (back.0 ≡ some (record article_item { updated_at = 30 }))
    × (get 10 1 back.1 ≡ some (record article_item { updated_at = 30 }))
    × (back.1.chunks ≡ full.chunks)
    × (back.1.connections ≡ full.connections)
    × (back.1.objects ≡ full.objects)
unfolding get recall_ai.Base.find_first
restore-delete_example = restore-delete 10 1 full article_item refl refl distinct 20 30

purge_is_final_example :
    let db' = (purge settings 40 11 1 full).1 in
    ((purge settings 40 11 1 full).0 ≡ true)
    × (get_row 11 db' ≡ some (record (scrub 40 trashed_item) { updated_at = 40 }))
    × ((later : ℕ) → restore later 11 1 db' ≡ (none, db'))
    × All (λ c. chunk_of 11 c ≡ false) db'.chunks
    × All (λ c. touches 11 c ≡ false) db'.connections
    × (settings.has_bucket ≡ true → Absent ("k2" ∷ []) db'.objects)
unfolding recall_ai.Vault.Trash.get_trashed recall_ai.Base.find_first
purge_is_final_example = purge_is_final settings 40 11 1 full trashed_item refl

sweeps_drain_example :
    let expired = is_expired (cutoff_at settings (days 31)) in
    count_where expired (sweeps settings (days 31) (count_where expired full.items) full).items ≡ 0
sweeps_drain_example = sweeps_drain settings (days 31) full distinct (omega arith)

owner_only_example :
    (get_row 12 (delete 20 12 1 full).1 ≡ some other_item)
    × (get_row 12 (restore 20 12 1 full).1 ≡ some other_item)
    × (get_row 12 (purge settings 20 12 1 full).1 ≡ some other_item)
    × ((t : Texts) (stamp document content : String)
        → get_row 12 (update_content t 20 stamp document content 12 1 full).1 ≡ some other_item)
    × ((stamp : String) (pinned : Option String)
        → get_row 12 (reprocess settings (draw 20 13) stamp pinned 12 1 full).1 ≡ some other_item)
    × (get_row 12 (empty_trash settings 20 1 full).1 ≡ some other_item)
unfolding get_row recall_ai.Base.find_first
owner_only_example =
    owner_only 12 1 full other_item distinct refl (λ e. omega (arith, e)) settings (draw 20 13) 12

save_url_once_example :
    let first = save_url (λ u. u) (draw 20 13) true 1 "b" none [] full in
    save_url (λ u. u) (draw 21 14) true 1 "b" (some "t") [] first.1 ≡ ((first.0.0, false), first.1)
save_url_once_example =
    save_url_once (λ u. u) (draw 20 13) (draw 21 14) true true 1 "b" "b" none (some "t") [] [] full
      (λ e. omega (arith, e), (λ e. omega (arith, e), (λ e. omega (arith, e), tt))) refl

abbrev retried : VaultItem
retried = record (requeued "now" none article_item) { updated_at = days 1 }

reprocess_once_example :
    let first = reprocess settings (draw (days 1) 13) "now" none 10 1 full in
    (reprocess settings (draw (days 2) 14) "later" none 10 1 first.1
      ≡ (err already_running, first.1))
    × (first.1.queue ≡ queued (draw (days 1) 13) 10 full.queue)
unfolding reprocess recall_ai.Base.find_first recall_ai.Vault.Repository.status_text
reprocess_once_example =
    reprocess_once settings (draw (days 1) 13) (draw (days 2) 14) "now" "later" none none 10 1 full
      retried refl

-- A search that the second memory of the user is left out of.
abbrev narrow : Narrow
narrow = record {
  created_after = none;
  content_types = [];
  category = none;
  exclude_item_id = some 11;
}

abbrev embedded : Db
embedded = record full {
  chunks =
      record {
        vault_item_id = 10;
        user_id = 1;
        chunk_index = 0;
        content = "c";
        embedding = some (1 ∷ []);
        token_count = none;
      }
      ∷ full.chunks;
}

search_stays_in_scope_example :
    let found = search_semantic (λ a b. length a) 1 (2 ∷ []) 3 narrow embedded in
    (All
        (λ r.
          ((r.0.user_id ≡ 1) × (r.0.deleted_at ≡ none))
          × (is_excluded narrow.exclude_item_id r.0.id ≡ false))
        found
      × Distinct (λ r. r.0.id) found)
    × (length found ≤ 3)
search_stays_in_scope_example =
    search_stays_in_scope (λ a b. length a) 1 (2 ∷ []) 3 narrow embedded (omega arith)

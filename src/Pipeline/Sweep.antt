-- ===== src/Pipeline/Sweep.antt =====
-- `_sweep_stranded_items` of app/queue/tasks.py, and `_fail` and `_skip` of
-- app/services/processing_service.py.
use recall_ai.Base.{
  ℕ, ◌+◌, String, Bool, false, Option, none, some, List, [], ◌∷◌, ◌++◌, leb, if◌then◌else◌,
}
use recall_ai.Vault.Row.{pending, processing, failed, skipped, completed, VaultItem, Db}
use recall_ai.Vault.Repository.{flush_row, list_stranded, get_unscoped, has_status}

pub record Settings : Type 0 where
  pub stuck_pending_minutes : ℕ
  pub stuck_processing_minutes : ℕ
  pub max_sweep_requeues : ℕ

pub record Counts : Type 0 where
  pub requeued : ℕ
  pub failed : ℕ

abbrev pub never_queued : String
never_queued =
    "This never reached the processing queue. Try again — if it keeps happening, the background service needs attention."

abbrev pub abandoned : String
abandoned =
    "Processing stopped partway through — the background worker went away before it finished. Nothing was lost; try again."

abbrev pub given_up : String → VaultItem → VaultItem
given_up reason i = record i { processing_status = failed; processing_error = some reason }

-- What a sweep makes of a row that was never picked up.
unfoldable pub pending_row : Settings → VaultItem → VaultItem
pending_row s i =
    if leb s.max_sweep_requeues i.retry_count
    then given_up never_queued i
    else record i { retry_count = i.retry_count + 1 }

-- `up` says whether the queue answers for an item.
abbrev pub queued_again : Settings → (ℕ → Bool) → VaultItem → Bool
queued_again s up i = if leb s.max_sweep_requeues i.retry_count then false else up i.id

unfoldable pub sweep_pending : Settings → (ℕ → Bool) → ℕ → VaultItem → Db → Db
unfolding pending_row flush_row
sweep_pending s up now i db =
    let db' = flush_row now (pending_row s i) db in
    if queued_again s up i then record db' { queue = db'.queue ++ i.id ∷ [] } else db'

unfoldable pub counted : Settings → (ℕ → Bool) → VaultItem → Counts → Counts
counted s up i c =
    if leb s.max_sweep_requeues i.retry_count
    then record c { failed = c.failed + 1 }
    else if up i.id
    then record c { requeued = c.requeued + 1 }
    else c

unfoldable pub sweep_all_pending :
    Settings → (ℕ → Bool) → ℕ → List VaultItem → Counts × Db → Counts × Db
unfolding sweep_pending counted
sweep_all_pending s up now [] o = o
sweep_all_pending s up now (i ∷ rows) o =
    sweep_all_pending s up now rows (counted s up i o.0, sweep_pending s up now i o.1)

-- A row that a worker claimed and abandoned.
unfoldable pub abandoned_row : VaultItem → VaultItem
abandoned_row i = record (given_up abandoned i) { retry_count = i.retry_count + 1 }

unfoldable pub sweep_all_processing : ℕ → List VaultItem → Counts × Db → Counts × Db
unfolding flush_row abandoned_row
sweep_all_processing now [] o = o
sweep_all_processing now (i ∷ rows) o =
    sweep_all_processing now rows
      (record o.0 { failed = o.0.failed + 1 }, flush_row now (abandoned_row i) o.1)

-- The limit of `list_stranded` is its default.
unfoldable pub sweep_stranded_items : Settings → (ℕ → Bool) → ℕ → Db → Counts × Db
unfolding sweep_all_pending sweep_all_processing list_stranded
sweep_stranded_items s up now db =
    let first =
      sweep_all_pending s up now (list_stranded now pending s.stuck_pending_minutes 100 db)
        (record { requeued = 0; failed = 0 }, db) in
    sweep_all_processing now (list_stranded now processing s.stuck_processing_minutes 100 first.1)
      first

-- `_skip`.
unfoldable pub skip : ℕ → VaultItem → Db → Db
unfolding flush_row
skip now i db = flush_row now (record i { processing_status = skipped; retry_count = 0 }) db

-- `_fail`, whose `reason` is the scrubbed text of the error.
unfoldable pub fail : ℕ → String → VaultItem → Db → Db
unfolding flush_row
fail now reason i db =
    flush_row now (record (given_up reason i) { retry_count = i.retry_count + 1 }) db

abbrev pub fail_found : ℕ → String → Option VaultItem → Db → Db
fail_found now reason none db = db
fail_found now reason (some i) db = if has_status completed i then db else fail now reason i db

unfoldable pub fail_item : ℕ → String → ℕ → Db → Db
unfolding fail get_unscoped
fail_item now reason item_id db = fail_found now reason (get_unscoped item_id db) db

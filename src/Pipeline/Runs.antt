-- ===== src/Pipeline/Runs.antt =====
-- app/repositories/extraction_run.py: the runs of a provider, keyed by id.
use recall_ai.Base.{
  ℕ, ◌-◌, String, ◌&&◌, Option, none, some, List, str_eq, ltb, ◌==◌, if◌then◌else◌, take,
  take_chars, find_first, select_where, save,
}
use recall_ai.Pipeline.Row.{RunStatus, ExtractionRun, is_running}
use recall_ai.Vault.Row.{Db, minutes}

abbrev pub run_key : ExtractionRun → ℕ
run_key r = r.id

abbrev pub with_runs : List ExtractionRun → Db → Db
with_runs runs db = record db { runs = runs }

unfoldable pub add_run : ExtractionRun → Db → Db
add_run r db = with_runs (save run_key r db.runs) db

unfoldable pub get_by_provider_run : String → String → Db → Option ExtractionRun
get_by_provider_run provider provider_run_id db =
    find_first (λ r. str_eq r.provider provider && str_eq r.provider_run_id provider_run_id) db.runs

unfoldable pub list_stale : ℕ → ℕ → ℕ → Db → List ExtractionRun
unfolding is_running
list_stale now older_than_minutes limit db = take limit (
    select_where (λ r. is_running r && ltb r.created_at (now - minutes older_than_minutes)) db.runs)

abbrev pub clipped : Option String → Option String
clipped none = none
clipped (some t) = if str_eq t "" then none else some (take_chars 500 t)

unfoldable pub marked : ℕ → RunStatus → Option String → ExtractionRun → ExtractionRun
marked now status error r = record r {
  status = status;
  error = clipped error;
  finished_at = some now;
}

unfoldable pub mark : ℕ → RunStatus → Option String → ExtractionRun → Db → ExtractionRun × Db
unfolding marked
mark now status error r db =
    let r' = marked now status error r in (r', with_runs (save run_key r' db.runs) db)

abbrev pub item_of : Option ExtractionRun → Option ℕ
item_of none = none
item_of (some r) = some r.vault_item_id

unfoldable pub get_item_id : ℕ → Db → Option ℕ
get_item_id run_id db = item_of (find_first (λ r. r.id == run_id) db.runs)

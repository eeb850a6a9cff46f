-- ===== src/Pipeline/Row.antt =====
-- The `extraction_runs` row of app/models/extraction_run.py. The status is a text column of the values.
use recall_ai.Base.{ℕ, String, Bool, true, false, Option}

pub data RunStatus : Type 0 where
  running succeeded failed timed_out : RunStatus

pub record ExtractionRun : Type 0 where
  pub id : ℕ
  pub vault_item_id : ℕ
  pub provider : String
  pub provider_run_id : String
  pub dataset_id : Option String
  pub status : RunStatus
  pub error : Option String
  pub created_at : ℕ
  pub finished_at : Option ℕ

unfoldable pub is_running : ExtractionRun → Bool
is_running r = of_status r.status
  where
    of_status : RunStatus → Bool
    of_status running = true
    of_status _ = false

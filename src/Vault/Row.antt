-- ===== src/Vault/Row.antt =====
-- The rows of app/models/vault.py with the enumerations of app/models/base.py, and what the vault
-- keeps. A UUID is the number that it encodes, an instant a number of microseconds, and a vector the
-- list of the numbers that encode its floats.
use recall_ai.Base.{ℕ, ◌*◌, String, Option, List, Dict}
use recall_ai.Connection.Row.{MemoryConnection}
use recall_ai.Pipeline.Row.{ExtractionRun}

pub data ContentType : Type 0 where
  youtube article pdf document note instagram facebook tiktok linkedin voice image : ContentType

pub data ProcessingStatus : Type 0 where
  pending processing completed failed skipped : ProcessingStatus

pub record VaultItem : Type 0 where
  pub id : ℕ
  pub user_id : ℕ
  pub type : ContentType
  pub source_url : Option String
  pub title : Option String
  pub summary : Option String
  pub content : Option String
  pub thumbnail_url : Option String
  pub language : Option String
  pub storage_key : Option String
  pub thumbnail_key : Option String
  pub file_name : Option String
  pub file_size : Option ℕ
  pub mime_type : Option String
  pub item_metadata : Dict
  pub ai_tags : List String
  pub ai_category : Option String
  pub ai_label : Option String
  pub ai_highlights : List String
  pub processing_status : ProcessingStatus
  pub processing_error : Option String
  pub retry_count : ℕ
  pub processed_at : Option ℕ
  pub created_at : ℕ
  pub updated_at : ℕ
  pub deleted_at : Option ℕ
  pub purged_at : Option ℕ

pub record VaultChunk : Type 0 where
  pub vault_item_id : ℕ
  pub user_id : ℕ
  pub chunk_index : ℕ
  pub content : String
  pub embedding : Option (List ℕ)
  pub token_count : Option ℕ

-- The tables, the keys of the objects in the bucket, and the ids handed to the queue.
pub record Db : Type 0 where
  pub items : List VaultItem
  pub chunks : List VaultChunk
  pub connections : List MemoryConnection
  pub runs : List ExtractionRun
  pub objects : List String
  pub queue : List ℕ

abbrev pub minutes : ℕ → ℕ
minutes n = n * 60_000_000

abbrev pub seconds : ℕ → ℕ
seconds n = n * 1_000_000

abbrev pub days : ℕ → ℕ
days n = n * 86_400_000_000

-- ===== src/Connection/Row.antt =====
-- The `memory_connections` row and its enumerations. A UUID is the number that it encodes, a score
-- a whole number of some unit fraction of 1. The text columns of the enumerations hold their values.
use recall_ai.Base.{ℕ, String, Option, min, max}
use recall_ai.Proposal.Row.{Relation}

pub data ConnectionOrigin : Type 0 where
  user ai : ConnectionOrigin

pub data ConnectionStatus : Type 0 where
  suggested confirmed dismissed : ConnectionStatus

pub record MemoryConnection : Type 0 where
  pub id : ℕ
  pub user_id : ℕ
  pub source_item_id : ℕ
  pub target_item_id : ℕ
  pub relation : Relation
  pub origin : ConnectionOrigin
  pub status : ConnectionStatus
  pub score : Option ℕ
  pub note : Option String
  pub ai_reason : Option String
  pub created_at : ℕ
  pub confirmed_at : Option ℕ
  pub dismissed_at : Option ℕ

-- The columns that Postgres computes.
abbrev pub pair_low : MemoryConnection → ℕ
pair_low c = min c.source_item_id c.target_item_id

abbrev pub pair_high : MemoryConnection → ℕ
pair_high c = max c.source_item_id c.target_item_id

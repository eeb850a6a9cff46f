-- ===== src/Connection/Typing.antt =====
-- `retype` of app/services/connection_service.py: a model labels an edge that is there. The model's
-- answer, and whether the hourly limit granted the call, are arguments.
use recall_ai.Base.{
  ℕ, String, Bool, true, false, Option, none, some, str_eq, if◌then◌else◌, Result, err,
}
use recall_ai.Proposal.Row.{Relation}
use recall_ai.Connection.Row.{MemoryConnection}
use recall_ai.Connection.Repository.{is_symmetric, get_scoped}
use recall_ai.Connection.Service.{
  Refusal, connection_not_found, typing_unavailable, normalised, flush_edge, owned_end,
  with_far_end,
}
use recall_ai.Vault.Row.{VaultItem, Db}

-- What `type_connection` of app/ai/connections.py answers, for two memories.
pub record Typed : Type 0 where
  pub relation : Relation
  pub swap : Bool
  pub reason : String

unfoldable pub swapped : Bool → MemoryConnection → MemoryConnection
swapped true c = record c { source_item_id = c.target_item_id; target_item_id = c.source_item_id }
swapped false c = c

unfoldable pub typed_row : Typed → MemoryConnection → MemoryConnection
unfolding swapped is_symmetric normalised
typed_row t c =
    let c' = record (swapped t.swap c) {
      relation = t.relation;
      ai_reason = if str_eq t.reason "" then none else some t.reason;
    } in
    if is_symmetric t.relation then normalised c' else c'

unfoldable pub retype_ends :
    (VaultItem → VaultItem → Typed)
    → ℕ
    → MemoryConnection
    → Option VaultItem
    → Option VaultItem
    → Db
    → Result Refusal (MemoryConnection × VaultItem) × Db
unfolding typed_row with_far_end
retype_ends typed user_id c (some s) (some t) db =
    let c' = typed_row (typed s t) c in with_far_end user_id c' (flush_edge c' db)
retype_ends typed user_id c _ _ db = (err connection_not_found, db)

unfoldable pub retype_found :
    Bool
    → (VaultItem → VaultItem → Typed)
    → ℕ
    → Option MemoryConnection
    → Db
    → Result Refusal (MemoryConnection × VaultItem) × Db
unfolding retype_ends owned_end
retype_found granted typed user_id none db = (err connection_not_found, db)
retype_found granted typed user_id (some c) db =
    if granted
    then retype_ends typed user_id c
        (owned_end c.source_item_id user_id c.source_item_id c.target_item_id db)
        (owned_end c.target_item_id user_id c.source_item_id c.target_item_id db) db
    else (err typing_unavailable, db)

unfoldable pub retype :
    Bool
    → Bool
    → (VaultItem → VaultItem → Typed)
    → ℕ
    → ℕ
    → Db
    → Result Refusal (MemoryConnection × VaultItem) × Db
unfolding retype_found get_scoped
retype available granted typed connection_id user_id db =
    if available
    then retype_found granted typed user_id (get_scoped connection_id user_id db) db
    else (err typing_unavailable, db)

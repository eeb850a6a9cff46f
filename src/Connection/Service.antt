-- ===== src/Connection/Service.antt =====
-- The writes of app/services/connection_service.py. A refusal is the exception ConnectionNotFound; the
-- transaction of its request is rolled back (get_session of app/db/session.py), which `commit` says.
use recall_ai.Base.{
  ℕ, String, Bool, true, false, ◌&&◌, Option, none, some, [], ◌∷◌, str_eq, ltb, leb, ◌==◌, min,
  if◌then◌else◌, find_first, with_key, save, Result, ok, err,
}
use recall_ai.Proposal.Row.{Relation}
use recall_ai.Connection.Row.{MemoryConnection}
use recall_ai.Connection.Repository.{
  Draw, is_symmetric, with_edges, upsert_manual, update_scoped, delete_scoped,
  dismiss as dismiss_row, confirm as confirm_row,
}
use recall_ai.Vault.Row.{VaultItem, Db}
use recall_ai.Vault.Repository.{item_key, get, owned_items}

pub data Refusal : Type 0 where
  connection_not_found typing_unavailable : Refusal

-- The database after a request.
unfoldable pub commit {ℓ} : {A : Type ℓ} → Db → Result Refusal A × Db → Db
commit db (ok a, db') = db'
commit db (err e, db') = db

abbrev pub edge_key : MemoryConnection → ℕ
edge_key c = c.id

-- `_orient`.
unfoldable pub orient : ℕ → ℕ → Relation → ℕ × ℕ
unfolding is_symmetric
orient source_id target_id relation =
    if is_symmetric relation && ltb target_id source_id
    then (target_id, source_id)
    else (source_id, target_id)

-- `_clean_note`, with `str.strip` a parameter.
unfoldable pub clean_note : (String → String) → Option String → Option String
clean_note strip none = none
clean_note strip (some t) = if str_eq (strip t) "" then none else some (strip t)

-- Both endpoints of `_assert_owns_both`, looked up in the rows of its statement.
unfoldable pub owned_end : ℕ → ℕ → ℕ → ℕ → Db → Option VaultItem
unfolding owned_items
owned_end n user_id source_id target_id db =
    find_first (with_key item_key n) (owned_items (source_id ∷ target_id ∷ []) user_id db)

abbrev pub Drawn : Type 0
Drawn = (MemoryConnection × Bool) × VaultItem

unfoldable pub connect_owned :
    (String → String)
    → Draw
    → ℕ
    → ℕ
    → ℕ
    → Relation
    → Option String
    → Option VaultItem
    → Option VaultItem
    → Db
    → Result Refusal Drawn × Db
unfolding orient clean_note upsert_manual
connect_owned strip d user_id source_id target_id relation words (some s) (some t) db =
    let ends = orient source_id target_id relation in
    let done = upsert_manual d user_id ends.0 ends.1 relation (clean_note strip words) db in
    (ok (done.0, t), done.1)
connect_owned strip d user_id source_id target_id relation words _ _ db =
    (err connection_not_found, db)

unfoldable pub connect :
    (String → String) → Draw → ℕ → ℕ → ℕ → Relation → Option String → Db → Result Refusal Drawn × Db
unfolding connect_owned owned_end
connect strip d user_id source_id target_id relation note db =
    if source_id == target_id
    then (err connection_not_found, db)
    else connect_owned strip d user_id source_id target_id relation note
        (owned_end source_id user_id source_id target_id db)
        (owned_end target_id user_id source_id target_id db) db

-- `_normalise`, of the row, which it flushes where the ends are swapped.
unfoldable pub normalised : MemoryConnection → MemoryConnection
normalised c =
    if leb c.source_item_id c.target_item_id
    then c
    else record c { source_item_id = c.target_item_id; target_item_id = c.source_item_id }

abbrev pub flush_edge : MemoryConnection → Db → Db
flush_edge c db = with_edges (save edge_key c db.connections) db

-- A row with its `_far_end`, which the write is answered with.
abbrev pub answer :
    MemoryConnection → Option VaultItem → Db → Result Refusal (MemoryConnection × VaultItem) × Db
answer c none db = (err connection_not_found, db)
answer c (some i) db = (ok (c, i), db)

unfoldable pub with_far_end :
    ℕ → MemoryConnection → Db → Result Refusal (MemoryConnection × VaultItem) × Db
unfolding get
with_far_end user_id c db = answer c (get c.target_item_id user_id db) db

unfoldable pub update_found :
    ℕ
    → Option Relation
    → Option MemoryConnection × Db
    → Result Refusal (MemoryConnection × VaultItem) × Db
unfolding with_far_end normalised is_symmetric
update_found user_id relation (none, db) = (err connection_not_found, db)
update_found user_id none (some c, db) = with_far_end user_id c db
update_found user_id (some r) (some c, db) =
    if is_symmetric r
    then with_far_end user_id (normalised c) (flush_edge (normalised c) db)
    else with_far_end user_id c db

-- An empty note clears the column.
abbrev pub is_clear : (String → String) → Option String → Bool
is_clear strip none = false
is_clear strip (some t) = str_eq (strip t) ""

unfoldable pub update :
    (String → String)
    → ℕ
    → ℕ
    → Option Relation
    → Option String
    → Db
    → Result Refusal (MemoryConnection × VaultItem) × Db
unfolding update_found update_scoped clean_note
update strip connection_id user_id relation note db =
    let clear = is_clear strip note in
    update_found user_id relation (
      update_scoped connection_id user_id relation (if clear then none else clean_note strip note)
        clear db)

unfoldable pub confirm_found :
    ℕ → Option MemoryConnection × Db → Result Refusal (MemoryConnection × VaultItem) × Db
unfolding with_far_end
confirm_found user_id (none, db) = (err connection_not_found, db)
confirm_found user_id (some c, db) = with_far_end user_id c db

unfoldable pub confirm : ℕ → ℕ → ℕ → Db → Result Refusal (MemoryConnection × VaultItem) × Db
unfolding confirm_found confirm_row
confirm now connection_id user_id db =
    confirm_found user_id (confirm_row now connection_id user_id db)

abbrev pub done_or_refused : Bool × Db → Result Refusal (Unit {0}) × Db
done_or_refused (true, db) = (ok tt, db)
done_or_refused (false, db) = (err connection_not_found, db)

unfoldable pub dismiss : ℕ → ℕ → ℕ → Db → Result Refusal (Unit {0}) × Db
unfolding dismiss_row
dismiss now connection_id user_id db = done_or_refused (dismiss_row now connection_id user_id db)

unfoldable pub delete : ℕ → ℕ → Db → Result Refusal (Unit {0}) × Db
unfolding delete_scoped
delete connection_id user_id db = done_or_refused (delete_scoped connection_id user_id db)

-- `_limit` and `_graph_limit`.
unfoldable pub limit_of : Option ℕ → ℕ
limit_of none = 24
limit_of (some n) = if n == 0 then 24 else min n 100

unfoldable pub graph_limit : Option ℕ → ℕ
graph_limit none = 300
graph_limit (some n) = if n == 0 then 300 else min n 1000

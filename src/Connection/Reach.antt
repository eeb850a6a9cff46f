-- ===== src/Connection/Reach.antt =====
-- Every table of edges that requests reach from an empty one: app/services/connection_service.py, the
-- derivation's writes, and the purge of a memory.
use recall_ai.Base.{ℕ, String, Bool, Option, none, some, List, [], ◌≡◌, sym, Fresh}
use mathlib.Core.Path.{subst}
use recall_ai.Proposal.Row.{Relation}
use recall_ai.Connection.Repository.{Draw, Proposal, suggest_many}
use recall_ai.Connection.Service.{commit, edge_key, connect, update, confirm, dismiss, delete}
use recall_ai.Connection.Typing.{Typed, retype}
use recall_ai.Vault.Service.{Settings, purge, purge_found, purge_item}
use recall_ai.Vault.Trash.{get_trashed, touches, purge as purge_row}
use recall_ai.Vault.Repository.{flush_row}
use recall_ai.Connection.Pairs.{IsSound}
use recall_ai.Connection.Sound.{IsSound-delete_where}
use recall_ai.Connection.Suggest.{AreNew, suggest_many-IsSound}
use recall_ai.Vault.Row.{VaultItem, Db}
use recall_ai.Connection.Requests.{
  connect-Sound, update-Sound, confirm-Sound, dismiss-Sound, delete-Sound, retype-Sound,
}

-- The databases that requests reach. What the other parts of the program do leaves the edges alone, but
-- for a purge. Ids of new rows are new.
pub data Reaches : Db → Type 0 where
  start : (db : Db) → db.connections ≡ [] → Reaches db
  elsewhere : {db : Db} → Reaches db → (db' : Db) → db'.connections ≡ db.connections → Reaches db'
  connects :
      {db : Db}
      → Reaches db
      → (strip : String → String) (d : Draw) (user_id source_id target_id : ℕ) (relation : Relation)
        (words : Option String)
      → Fresh edge_key d.row_id db.connections
      → Reaches (commit db (connect strip d user_id source_id target_id relation words db))
  updates :
      {db : Db}
      → Reaches db
      → (strip : String → String) (id user_id : ℕ) (relation : Option Relation)
        (words : Option String)
      → Reaches (commit db (update strip id user_id relation words db))
  confirms :
      {db : Db}
      → Reaches db
      → (now id user_id : ℕ) → Reaches (commit db (confirm now id user_id db))
  dismisses :
      {db : Db}
      → Reaches db
      → (now id user_id : ℕ) → Reaches (commit db (dismiss now id user_id db))
  deletes : {db : Db} → Reaches db → (id user_id : ℕ) → Reaches (commit db (delete id user_id db))
  retypes :
      {db : Db}
      → Reaches db
      → (available granted : Bool) (typed : VaultItem → VaultItem → Typed) (id user_id : ℕ)
      → Reaches (commit db (retype available granted typed id user_id db))
  suggests :
      {db : Db}
      → Reaches db
      → (now user_id source_id : ℕ) (candidates : List Proposal) → AreNew candidates db.connections
      → Reaches (suggest_many now user_id source_id candidates db).1
  purges :
      {db : Db}
      → Reaches db
      → (s : Settings) (now item_id user_id : ℕ) → Reaches (purge s now item_id user_id db).1

purge_found-Sound :
    (s : Settings) (now : ℕ) (o : Option VaultItem) (db : Db)
    → IsSound db.connections
    → IsSound (purge_found s now o db).1.connections
unfolding purge_found purge_item purge_row flush_row
purge_found-Sound s now none db h = h
purge_found-Sound s now (some i) db h = IsSound-delete_where (touches i.id) db.connections h

purge-Sound :
    (s : Settings) (now item_id user_id : ℕ) (db : Db)
    → IsSound db.connections
    → IsSound (purge s now item_id user_id db).1.connections
unfolding purge
purge-Sound s now item_id user_id db h =
    purge_found-Sound s now (get_trashed item_id user_id db) db h

-- In every database that requests reach, the edges have distinct ids, there is at most one for an owner
-- and an unordered pair of memories, and none joins a memory to itself.
pub Reaches-IsSound : {db : Db} → Reaches db → IsSound db.connections
Reaches-IsSound (start db e) = subst IsSound (sym e) (tt, (tt, tt))
Reaches-IsSound (elsewhere r db' e) = subst IsSound (sym e) (Reaches-IsSound r)
Reaches-IsSound (connects {db} r strip d user_id s t relation words f) =
    connect-Sound db (Reaches-IsSound r) strip d user_id s t relation words f
Reaches-IsSound (updates {db} r strip id user_id relation words) =
    update-Sound db (Reaches-IsSound r) strip id user_id relation words
Reaches-IsSound (confirms {db} r now id user_id) =
    confirm-Sound db (Reaches-IsSound r) now id user_id
Reaches-IsSound (dismisses {db} r now id user_id) =
    dismiss-Sound db (Reaches-IsSound r) now id user_id
Reaches-IsSound (deletes {db} r id user_id) = delete-Sound db (Reaches-IsSound r) id user_id
Reaches-IsSound (retypes {db} r available granted typed id user_id) =
    retype-Sound db (Reaches-IsSound r) available granted typed id user_id
Reaches-IsSound (suggests {db} r now user_id source candidates n) =
    suggest_many-IsSound now user_id source candidates db n (Reaches-IsSound r)
Reaches-IsSound (purges {db} r s now item_id user_id) =
    purge-Sound s now item_id user_id db (Reaches-IsSound r)

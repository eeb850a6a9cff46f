-- ===== src/Connection/Repository.antt =====
-- The writes of app/repositories/connection.py. An INSERT with an ON CONFLICT clause looks for the row
-- of the same owner and unordered pair, which the table's unique constraint keys.
use recall_ai.Base.{
  ℕ, ◌+◌, String, Bool, true, false, not, ◌&&◌, Option, none, some, List, [], ◌∷◌, ◌++◌, ltb, ◌==◌,
  is_some, is_none, if◌then◌else◌, bit, find_first, update_where, delete_where, count_where,
}
use recall_ai.Proposal.Row.{Relation, related_to, duplicate_of, contradicts}
use recall_ai.Connection.Row.{
  user, ai, ConnectionStatus, suggested, confirmed, dismissed, MemoryConnection, pair_low,
  pair_high,
}
use recall_ai.Vault.Row.{Db}
use recall_ai.Vault.Trash.{touches}

-- What one statement draws: the clock, and the id of a new row.
pub record Draw : Type 0 where
  pub now : ℕ
  pub row_id : ℕ

-- `relation in SYMMETRIC_RELATIONS`.
unfoldable pub is_symmetric : Relation → Bool
is_symmetric related_to = true
is_symmetric contradicts = true
is_symmetric duplicate_of = true
is_symmetric _ = false

unfoldable pub is_status : ConnectionStatus → ConnectionStatus → Bool
is_status suggested suggested = true
is_status confirmed confirmed = true
is_status dismissed dismissed = true
is_status _ _ = false

-- The key of `uq_memory_connections_pair`.
unfoldable pub is_same_pair : MemoryConnection → MemoryConnection → Bool
is_same_pair r c =
    c.user_id == r.user_id && (pair_low c == pair_low r && pair_high c == pair_high r)

-- One edge that the derivation wants to offer, with the id drawn for its row.
pub record Proposal : Type 0 where
  pub row_id : ℕ
  pub target_id : ℕ
  pub score : Option ℕ
  pub relation : Relation
  pub ai_reason : Option String
  pub swap : Bool

abbrev pub with_edges : List MemoryConnection → Db → Db
with_edges edges db = record db { connections = edges }

abbrev pub is_theirs : ℕ → ℕ → MemoryConnection → Bool
is_theirs connection_id user_id c = c.id == connection_id && c.user_id == user_id

unfoldable pub get_scoped : ℕ → ℕ → Db → Option MemoryConnection
get_scoped connection_id user_id db = find_first (is_theirs connection_id user_id) db.connections

-- The row that `upsert_manual` inserts.
unfoldable pub drawn : Draw → ℕ → ℕ → ℕ → Relation → Option String → MemoryConnection
drawn d user_id source_item_id target_item_id relation note = record {
  id = d.row_id;
  user_id = user_id;
  source_item_id = source_item_id;
  target_item_id = target_item_id;
  relation = relation;
  origin = user;
  status = confirmed;
  score = none;
  note = note;
  ai_reason = none;
  created_at = d.now;
  confirmed_at = some d.now;
  dismissed_at = none;
}

-- What its ON CONFLICT clause sets on the row that is there.
unfoldable pub revived : ℕ → Relation → Option String → MemoryConnection → MemoryConnection
revived now relation note c = record c {
  relation = relation;
  origin = user;
  status = confirmed;
  note = note;
  ai_reason = none;
  score = none;
  dismissed_at = none;
  confirmed_at = some now;
}

unfoldable pub upsert_found :
    ℕ → MemoryConnection → Option MemoryConnection → Db → (MemoryConnection × Bool) × Db
unfolding revived is_same_pair
upsert_found now r none db = ((r, true), with_edges (db.connections ++ r ∷ []) db)
upsert_found now r (some c) db = (
  (revived now r.relation r.note c, false),
  with_edges (update_where (is_same_pair r) (revived now r.relation r.note) db.connections) db,
)

-- `upsert_manual`, of two items that differ: its one caller refuses others first, as the table's CHECK
-- constraint would.
unfoldable pub upsert_manual :
    Draw → ℕ → ℕ → ℕ → Relation → Option String → Db → (MemoryConnection × Bool) × Db
unfolding drawn upsert_found is_same_pair
upsert_manual d user_id source_item_id target_item_id relation note db =
    let r = drawn d user_id source_item_id target_item_id relation note in
    upsert_found d.now r (find_first (is_same_pair r) db.connections) db

-- `_stored_ends`.
unfoldable pub stored_ends : ℕ → Proposal → ℕ × ℕ
unfolding is_symmetric
stored_ends source_item_id p =
    let source = if p.swap then p.target_id else source_item_id in
    let target = if p.swap then source_item_id else p.target_id in
    if is_symmetric p.relation && ltb target source then (target, source) else (source, target)

unfoldable pub proposed : ℕ → ℕ → ℕ → Proposal → MemoryConnection
unfolding stored_ends
proposed now user_id source_item_id p = record {
  id = p.row_id;
  user_id = user_id;
  source_item_id = (stored_ends source_item_id p).0;
  target_item_id = (stored_ends source_item_id p).1;
  relation = p.relation;
  origin = ai;
  status = suggested;
  score = p.score;
  note = none;
  ai_reason = p.ai_reason;
  created_at = now;
  confirmed_at = none;
  dismissed_at = none;
}

-- The rows of the statement; a proposal of the item itself is left out.
unfoldable pub proposed_rows : ℕ → ℕ → ℕ → List Proposal → List MemoryConnection
unfolding proposed
proposed_rows now user_id source_item_id [] = []
proposed_rows now user_id source_item_id (p ∷ ps) =
    let rest = proposed_rows now user_id source_item_id ps in
    if p.target_id == source_item_id then rest else proposed now user_id source_item_id p ∷ rest

unfoldable pub is_taken : MemoryConnection → List MemoryConnection → Bool
unfolding is_same_pair
is_taken r edges = is_some (find_first (is_same_pair r) edges)

-- INSERT … ON CONFLICT DO NOTHING, with its rowcount.
unfoldable pub insert_all :
    List MemoryConnection → List MemoryConnection → ℕ × List MemoryConnection
unfolding is_taken
insert_all [] edges = (0, edges)
insert_all (r ∷ rs) edges =
    let rest = insert_all rs (if is_taken r edges then edges else edges ++ r ∷ []) in
    (bit (not (is_taken r edges)) + rest.0, rest.1)

unfoldable pub suggest_many : ℕ → ℕ → ℕ → List Proposal → Db → ℕ × Db
unfolding insert_all proposed_rows
suggest_many now user_id source_item_id candidates db =
    let done = insert_all (proposed_rows now user_id source_item_id candidates) db.connections in
    (done.0, with_edges done.1 db)

unfoldable pub count_for_item : ℕ → ℕ → Db → ℕ
count_for_item user_id item_id db =
    count_where (λ c. c.user_id == user_id && touches item_id c) db.connections

abbrev pub set_relation : Option Relation → MemoryConnection → MemoryConnection
set_relation none c = c
set_relation (some r) c = record c { relation = r }

abbrev pub set_note : Option String → MemoryConnection → MemoryConnection
set_note none c = c
set_note (some t) c = record c { note = some t }

-- The changes of `update_scoped`.
unfoldable pub changed :
    Option Relation → Option String → Bool → MemoryConnection → MemoryConnection
changed relation note clear_note c =
    let c' = set_relation relation c in
    if clear_note then record c' { note = none } else set_note note c'

abbrev pub apply_to :
    (MemoryConnection → MemoryConnection) → Option MemoryConnection → Option MemoryConnection
apply_to f none = none
apply_to f (some c) = some (f c)

-- UPDATE … SET f WHERE p … RETURNING, of at most one row.
unfoldable pub update_returning :
    (MemoryConnection → Bool)
    → (MemoryConnection → MemoryConnection)
    → Db
    → Option MemoryConnection × Db
update_returning p f db =
    (apply_to f (find_first p db.connections), with_edges (update_where p f db.connections) db)

-- A statement without changes only reads, and gives the row as it is.
unfoldable pub update_scoped :
    ℕ → ℕ → Option Relation → Option String → Bool → Db → Option MemoryConnection × Db
unfolding update_returning changed get_scoped
update_scoped connection_id user_id relation note clear_note db =
    if is_none relation && (not clear_note && is_none note)
    then (get_scoped connection_id user_id db, db)
    else update_returning (is_theirs connection_id user_id) (changed relation note clear_note) db

unfoldable pub delete_scoped : ℕ → ℕ → Db → Bool × Db
delete_scoped connection_id user_id db = (
  ltb 0 (count_where (is_theirs connection_id user_id) db.connections),
  with_edges (delete_where (is_theirs connection_id user_id) db.connections) db,
)

abbrev pub is_dismissible : ℕ → ℕ → MemoryConnection → Bool
is_dismissible connection_id user_id c =
    is_theirs connection_id user_id c && not (is_status c.status dismissed)

unfoldable pub declined : ℕ → MemoryConnection → MemoryConnection
declined now c = record c { status = dismissed; dismissed_at = some now; confirmed_at = none }

unfoldable pub dismiss : ℕ → ℕ → ℕ → Db → Bool × Db
unfolding declined is_status
dismiss now connection_id user_id db = (
  ltb 0 (count_where (is_dismissible connection_id user_id) db.connections),
  with_edges (update_where (is_dismissible connection_id user_id) (declined now) db.connections) db,
)

abbrev pub is_confirmable : ℕ → ℕ → MemoryConnection → Bool
is_confirmable connection_id user_id c =
    is_theirs connection_id user_id c && is_status c.status suggested

unfoldable pub accepted : ℕ → MemoryConnection → MemoryConnection
accepted now c = record c { status = confirmed; confirmed_at = some now; dismissed_at = none }

unfoldable pub confirm : ℕ → ℕ → ℕ → Db → Option MemoryConnection × Db
unfolding update_returning accepted is_status
confirm now connection_id user_id db =
    update_returning (is_confirmable connection_id user_id) (accepted now) db

unfoldable pub delete_for_item : ℕ → Db → ℕ × Db
delete_for_item item_id db = (
  count_where (touches item_id) db.connections,
  with_edges (delete_where (touches item_id) db.connections) db,
)

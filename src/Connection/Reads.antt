-- ===== src/Connection/Reads.antt =====
-- The reads of app/repositories/connection.py and app/services/connection_service.py. A statement that
-- joins the items looks each one up by its id, among the caller's live ones.
use recall_ai.Base.{
  ℕ, suc, String, Bool, true, false, ◌&&◌, ◌||◌, Option, none, some, List, [], ◌∷◌, ◌++◌, ◌==◌,
  if◌then◌else◌, take, length, select_where, order_desc, map, Result, ok, err,
}
use recall_ai.Proposal.Row.{
  Relation, related_to, duplicate_of, expands, supports, contradicts, inspired_by, depends_on,
  example_of, part_of,
}
use recall_ai.Connection.Row.{ConnectionStatus, suggested, confirmed, dismissed, MemoryConnection}
use recall_ai.Connection.Repository.{is_status}
use recall_ai.Connection.Service.{Refusal, connection_not_found, limit_of}
use recall_ai.Vault.Row.{VaultItem, Db}
use recall_ai.Vault.Service.{is_blank}
use recall_ai.Vault.Repository.{get}

pub data Direction : Type 0 where
  outgoing incoming : Direction

-- One edge, read from one end of it.
pub record Neighbour : Type 0 where
  pub connection : MemoryConnection
  pub item : VaultItem
  pub direction : Direction

unfoldable pub is_wanted : List ConnectionStatus → ConnectionStatus → Bool
unfolding is_status
is_wanted [] s = false
is_wanted (w ∷ ws) s = is_status s w || is_wanted ws s

-- `relation.value`.
unfoldable pub relation_code : Relation → ℕ
relation_code related_to = 0
relation_code duplicate_of = 1
relation_code expands = 2
relation_code supports = 3
relation_code contradicts = 4
relation_code inspired_by = 5
relation_code depends_on = 6
relation_code example_of = 7
relation_code part_of = 8

unfoldable pub is_relation : Option Relation → Relation → Bool
unfolding relation_code
is_relation none r = true
is_relation (some w) r = relation_code r == relation_code w

-- An edge with the memory that was asked about, the one at its other end, and the side it is read from.
pub record Half : Type 0 where
  pub edge : MemoryConnection
  pub asked_about : ℕ
  pub neighbour_id : ℕ
  pub direction : Direction

abbrev pub out_half : MemoryConnection → Half
out_half c = record {
  edge = c;
  asked_about = c.source_item_id;
  neighbour_id = c.target_item_id;
  direction = outgoing;
}

abbrev pub in_half : MemoryConnection → Half
in_half c = record {
  edge = c;
  asked_about = c.target_item_id;
  neighbour_id = c.source_item_id;
  direction = incoming;
}

-- The edges of a table by their ends, as `_endpoints` has them.
unfoldable pub halves : List MemoryConnection → List Half
halves edges = map out_half edges ++ map in_half edges

abbrev pub found_item : Half → Option VaultItem → List Neighbour → List Neighbour
found_item h none rest = rest
found_item h (some i) rest =
    record { connection = h.edge; item = i; direction = h.direction } ∷ rest

-- The join of the neighbour.
unfoldable pub joined : ℕ → Db → List Half → List Neighbour
unfolding get
joined user_id db [] = []
joined user_id db (h ∷ hs) =
    let rest = joined user_id db hs in found_item h (get h.neighbour_id user_id db) rest

abbrev pub wanted_or_confirmed : List ConnectionStatus → List ConnectionStatus
wanted_or_confirmed [] = confirmed ∷ []
wanted_or_confirmed (s ∷ ss) = s ∷ ss

unfoldable pub is_listed : ℕ → ℕ → List ConnectionStatus → Option Relation → Half → Bool
unfolding is_wanted is_relation
is_listed user_id item_id statuses relation h =
    h.edge.user_id == user_id
    && (h.asked_about == item_id
        && (is_wanted (wanted_or_confirmed statuses) h.edge.status
            && is_relation relation h.edge.relation))

abbrev pub neighbours : ℕ → ℕ → List ConnectionStatus → Option Relation → Db → List Neighbour
neighbours user_id item_id statuses relation db =
    joined user_id db
      (select_where (is_listed user_id item_id statuses relation) (halves db.connections))

-- The page, and the total of the window, which no row carries where the page is empty.
abbrev pub window {ℓ} : {A : Type ℓ} → List A → ℕ → List A × ℕ
window ordered limit =
    let rows = take limit ordered in (rows, if length rows == 0 then 0 else length ordered)

unfoldable pub list_for_item :
    ℕ → ℕ → List ConnectionStatus → Option Relation → ℕ → Db → List Neighbour × ℕ
unfolding joined is_listed halves
list_for_item user_id item_id statuses relation limit db =
    window
      (order_desc (λ n. n.connection.created_at) (neighbours user_id item_id statuses relation db))
      limit

unfoldable pub focused :
    Option VaultItem → List Neighbour × ℕ → Result Refusal (VaultItem × (List Neighbour × ℕ))
focused none found = err connection_not_found
focused (some i) found = ok (i, found)

unfoldable pub neighbourhood :
    ℕ
    → ℕ
    → List ConnectionStatus
    → Option Relation
    → Option ℕ
    → Db
    → Result Refusal (VaultItem × (List Neighbour × ℕ))
unfolding focused list_for_item get limit_of
neighbourhood item_id user_id statuses relation limit db =
    focused (get item_id user_id db)
      (list_for_item user_id item_id statuses relation (limit_of limit) db)

-- An edge with both of its memories.
abbrev pub Card : Type 0
Card = MemoryConnection × (VaultItem × VaultItem)

abbrev pub found_ends :
    MemoryConnection → Option VaultItem → Option VaultItem → List Card → List Card
found_ends c (some s) (some t) rest = (c, (s, t)) ∷ rest
found_ends c _ _ rest = rest

-- The join of both ends, each the caller's and live.
unfoldable pub joined_ends : ℕ → Db → List MemoryConnection → List Card
unfolding get
joined_ends user_id db [] = []
joined_ends user_id db (c ∷ cs) =
    let rest = joined_ends user_id db cs in
    found_ends c (get c.source_item_id user_id db) (get c.target_item_id user_id db) rest

-- A score to sort by, `desc().nullslast()`.
abbrev pub score_rank : Option ℕ → ℕ
score_rank none = 0
score_rank (some n) = suc n

abbrev pub cards_of : (MemoryConnection → Bool) → ℕ → Db → List Card
cards_of where_ user_id db = joined_ends user_id db (select_where where_ db.connections)

abbrev pub is_own_status : ℕ → ConnectionStatus → MemoryConnection → Bool
is_own_status user_id s c = c.user_id == user_id && is_status c.status s

unfoldable pub list_suggestions : ℕ → ℕ → Db → List Card × ℕ
unfolding joined_ends is_status
list_suggestions user_id limit db =
    window
      (order_desc (λ c. score_rank c.0.score)
        (cards_of (is_own_status user_id suggested) user_id db))
      limit

abbrev pub wanted_for_graph : List ConnectionStatus → List ConnectionStatus
wanted_for_graph [] = confirmed ∷ suggested ∷ []
wanted_for_graph (s ∷ ss) = s ∷ ss

-- Sorted by the last of its keys first: the sorts are stable.
unfoldable pub graph_order : List Card → List Card
unfolding is_status
graph_order cards =
    order_desc (λ c. if is_status c.0.status confirmed then 1 else 0)
      (order_desc (λ c. score_rank c.0.score) (order_desc (λ c. c.0.created_at) cards))

unfoldable pub graph : ℕ → List ConnectionStatus → ℕ → Db → List Card × ℕ
unfolding joined_ends graph_order is_wanted
graph user_id statuses limit db =
    window
      (graph_order (
        cards_of (λ c. c.user_id == user_id && is_wanted (wanted_for_graph statuses) c.status)
          user_id db))
      limit

abbrev pub text_of : Option String → String
text_of none = ""
text_of (some t) = t

-- `_subject`, whose `one_line` joins the words of a text with single spaces.
unfoldable pub subject : (String → String) → VaultItem → String
subject one_line i = one_line (if is_blank i.ai_label then text_of i.title else text_of i.ai_label)

abbrev pub declined_rank : Card → ℕ
declined_rank c = score_rank c.0.dismissed_at

unfoldable pub recent_declines : (String → String) → ℕ → ℕ → Db → List (String × String)
unfolding subject joined_ends is_status
recent_declines one_line user_id limit db =
    map (λ c. (subject one_line c.1.0, subject one_line c.1.1))
      (take limit
        (order_desc declined_rank (cards_of (is_own_status user_id dismissed) user_id db)))

abbrev pub is_counted : ℕ → ℕ → Half → Bool
is_counted user_id item_id h =
    h.edge.user_id == user_id && (is_status h.edge.status confirmed && h.asked_about == item_id)

-- The count of one item's group.
unfoldable pub count_of : ℕ → ℕ → Db → ℕ
unfolding joined halves is_status
count_of user_id item_id db =
    length (joined user_id db (select_where (is_counted user_id item_id) (halves db.connections)))

-- `counts_for_items`, of distinct ids: an item without an edge has no group.
unfoldable pub counts_for_items : ℕ → List ℕ → Db → List (ℕ × ℕ)
unfolding count_of
counts_for_items user_id [] db = []
counts_for_items user_id (i ∷ is) db =
    let rest = counts_for_items user_id is db in
    let n = count_of user_id i db in if n == 0 then rest else (i, n) ∷ rest

-- ===== src/Connection/Examples.antt =====
-- Runs of the connection service, and its theorems at concrete tables.
use recall_ai.Base.{
  ◌+◌, ◌≤◌, max, ℕ, String, Bool, true, false, Option, none, some, List, [], ◌∷◌, ◌++◌, ◌≡◌, ◌≢◌,
  ◌⊎◌, inl, inr, refl, arith, ok, err, All, Distinct, Result, find_first, count_where, length,
  is_none,
}
use recall_ai.Proposal.Row.{Relation, related_to, part_of}
use recall_ai.Connection.Row.{suggested, confirmed, ai, user, MemoryConnection}
use recall_ai.Connection.Repository.{Draw, Proposal, is_same_pair, suggest_many, count_for_item}
use recall_ai.Connection.Service.{
  connection_not_found, commit, clean_note, connect, update, confirm, dismiss, delete,
}
use recall_ai.Connection.Typing.{Typed, retype}
use recall_ai.Connection.Reads.{neighbours}
use recall_ai.Connection.Pairs.{IsSound}
use recall_ai.Connection.Offers.{derive_offers}
use recall_ai.Vault.Trash.{touches}
use recall_ai.Connection.Reach.{start, connects, dismisses, Reaches-IsSound}
use recall_ai.Connection.Drawing.{joins, connect_refuses, connect_draws, reconnect_keeps_ends}
use recall_ai.Connection.Others.{edges_of}
use recall_ai.Connection.Tenancy.{edges_are_private}
use recall_ai.Connection.Derive.{Policy, World, derive}
use recall_ai.Connection.Ceiling.{derive_keeps_ceiling}
use recall_ai.Connection.View.{view, put, connect_refines_put}
use recall_ai.Connection.Mirror.{is_item, neighbours_are_mutual}
use recall_ai.Vault.Row.{VaultItem, VaultChunk, Db, article}
use recall_ai.Vault.Repository.{item_key}
use recall_ai.Vault.Service.{new_item}

abbrev memory : ℕ → ℕ → VaultItem
memory id user_id = new_item (record { now = 5; row_id = id; queue_up = true }) user_id article []

abbrev empty : Db
empty = record {
  items = memory 10 1 ∷ memory 11 1 ∷ memory 12 2 ∷ [];
  chunks = [];
  connections = [];
  runs = [];
  objects = [];
  queue = [];
}

distinct : Distinct item_key empty.items
distinct =
    ((λ e. omega (arith, e), (λ e. omega (arith, e), tt)), ((λ e. omega (arith, e), tt), (tt, tt)))

abbrev draw : ℕ → ℕ → Draw
draw now id = record { now = now; row_id = id }

-- The first memory drawn as a part of the second.
abbrev one_edge : Db
one_edge = (connect (λ t. t) (draw 6 1) 1 10 11 part_of none empty).1

Reaches-IsSound_example :
    IsSound
      (commit (commit empty (connect (λ t. t) (draw 6 1) 1 10 11 part_of none empty)) (
        dismiss 7 1 1
          (commit empty (connect (λ t. t) (draw 6 1) 1 10 11 part_of none empty)))).connections
Reaches-IsSound_example =
    Reaches-IsSound
      (dismisses (connects (start empty refl) (λ t. t) (draw 6 1) 1 10 11 part_of none tt) 7 1 1)

connect_refuses_example :
    connect (λ t. t) (draw 6 1) 1 10 12 part_of none empty ≡ (err connection_not_found, empty)
unfolding recall_ai.Vault.Repository.get find_first
connect_refuses_example =
    connect_refuses (λ t. t) (draw 6 1) 1 10 12 part_of none empty distinct (inr (inr refl))

connect_draws_example :
    let done = connect (λ t. t) (draw 6 1) 1 10 11 part_of none empty in
    (r : MemoryConnection) × ((done.0
        ≡ ok ((r, is_none (find_first (joins 1 10 11) empty.connections)), memory 11 1))
      × ((find_first (joins 1 10 11) done.1.connections ≡ some r)
          × ((r.status ≡ confirmed)
              × ((r.relation ≡ part_of) × (r.note ≡ clean_note (λ t. t) none)))))
unfolding recall_ai.Vault.Repository.get find_first
connect_draws_example =
    connect_draws (λ t. t) (draw 6 1) 1 10 11 part_of none empty distinct (λ e. omega (arith, e))
      (memory 10 1) (memory 11 1) refl refl

abbrev first_edge : MemoryConnection
first_edge = record {
  id = 1;
  user_id = 1;
  source_item_id = 10;
  target_item_id = 11;
  relation = part_of;
  origin = user;
  status = confirmed;
  score = none;
  note = none;
  ai_reason = none;
  created_at = 6;
  confirmed_at = some 6;
  dismissed_at = none;
}

-- The second memory drawn as a part of the first: what is stored still says the reverse.
reconnect_keeps_ends_example :
    (r : MemoryConnection) × (((connect (λ t. t) (draw 7 2) 1 11 10 part_of none one_edge).0
        ≡ ok ((r, false), memory 10 1))
      × ((r.relation ≡ part_of) × ((r.source_item_id ≡ 10) × (r.target_item_id ≡ 11))))
unfolding connect find_first recall_ai.Base.select_where recall_ai.Vault.Repository.get
reconnect_keeps_ends_example =
    reconnect_keeps_ends (λ t. t) (draw 7 2) 1 11 10 part_of none one_edge distinct
      (λ e. omega (arith, e)) (memory 11 1) (memory 10 1) refl refl first_edge refl

edges_are_private_example :
    ((d : Draw) (s t : ℕ) (r : Relation)
      → edges_of 2 (connect (λ t. t) d 1 s t r none one_edge).1 ≡ edges_of 2 one_edge)
    × ((edges_of 2 (update (λ t. t) 1 1 (some related_to) none one_edge).1 ≡ edges_of 2 one_edge)
        × ((edges_of 2 (confirm 9 1 1 one_edge).1 ≡ edges_of 2 one_edge)
            × ((edges_of 2 (dismiss 9 1 1 one_edge).1 ≡ edges_of 2 one_edge)
                × ((edges_of 2 (delete 1 1 one_edge).1 ≡ edges_of 2 one_edge)
                    × (((available granted : Bool) (typed : VaultItem → VaultItem → Typed)
                          → edges_of 2 (retype available granted typed 1 1 one_edge).1
                            ≡ edges_of 2 one_edge)
                        × ((source : ℕ) (ps : List Proposal)
                            → edges_of 2 (suggest_many 9 1 source ps one_edge).1
                              ≡ edges_of 2 one_edge))))))
unfolding connect find_first recall_ai.Base.select_where
edges_are_private_example =
    edges_are_private 2 1 one_edge ((tt, tt), ((tt, tt), (λ e. omega (arith, e), tt)))
      (λ e. omega (arith, e)) 1 9 (λ t. t) (some related_to) none

neighbours_are_mutual_example :
    count_where (is_item 11) (neighbours 1 10 [] none one_edge)
    ≡ count_where (is_item 10) (neighbours 1 11 [] none one_edge)
unfolding recall_ai.Vault.Repository.get find_first connect recall_ai.Base.select_where
neighbours_are_mutual_example =
    neighbours_are_mutual 1 one_edge 10 11 (memory 10 1) (memory 11 1) [] none refl refl

-- A derivation without a judge, by the distance alone.
abbrev policy : Policy
policy = record {
  one = 100;
  max_per_item = 5;
  judge_max_candidates = 8;
  recall_floor = 30;
  tag_candidates = 4;
  min_score = 60;
  max_candidates = 3;
  min_confidence = 50;
}

abbrev world : World
world = record {
  cosine_distance = λ a b. 10;
  strip = λ s. s;
  fold = λ s. s;
  sorted = λ s. s;
  row_id_for = λ n. n + 100;
  judge = λ i found. none;
}

abbrev chunk : ℕ → VaultChunk
chunk n = record {
  vault_item_id = n;
  user_id = 1;
  chunk_index = 0;
  content = "c";
  embedding = some (1 ∷ []);
  token_count = none;
}

abbrev embedded : Db
embedded = record empty { chunks = chunk 10 ∷ chunk 11 ∷ [] }

derive_counts : (derive world policy 9 10 embedded).0 ≡ 1
unfolding derive find_first count_where recall_ai.Base.order_desc recall_ai.Base.select_where
    recall_ai.Base.order_asc
derive_counts = refl

derive_keeps_ceiling_example :
    count_for_item 1 10 (derive world policy 9 10 embedded).1 ≤ max (count_for_item 1 10 embedded) 5
unfolding recall_ai.Vault.Repository.get_unscoped find_first
derive_keeps_ceiling_example = derive_keeps_ceiling world policy 9 10 embedded (memory 10 1) refl

derive_offers_example :
    let done = derive world policy 9 10 embedded in
    (added : List MemoryConnection) × ((done.1.connections ≡ embedded.connections ++ added)
      × ((done.0 ≡ length added)
          × All
              (λ r.
                ((r.status ≡ suggested) × (r.origin ≡ ai) × (r.user_id ≡ 1) × (touches 10 r ≡ true))
                × (find_first (is_same_pair r) embedded.connections ≡ none))
              added))
unfolding recall_ai.Vault.Repository.get_unscoped find_first
derive_offers_example = derive_offers world policy 9 10 embedded (memory 10 1) refl

connect_refines_put_example :
    view 1 (connect (λ t. t) (draw 6 1) 1 10 11 part_of none empty).1 10 11
    ≡ put 10 11 (view 1 empty) 10 11
unfolding recall_ai.Vault.Repository.get find_first
connect_refines_put_example =
    connect_refines_put (λ t. t) (draw 6 1) 1 10 11 part_of none empty distinct
      (λ e. omega (arith, e)) (memory 10 1) (memory 11 1) refl refl 10 11

-- ===== src/Connection/Derive.antt =====
-- app/services/connection_derivation.py: which suggestions a new memory gets, and the check of the
-- judge's answer in app/ai/connection_judge.py. The answer itself is an argument, like the vector
-- distance. A score is a whole number of the unit that `one` counts.
use recall_ai.Base.{
  ℕ, ◌+◌, ◌-◌, ◌*◌, String, Bool, false, not, ◌&&◌, ◌||◌, Option, none, some, List, [], ◌∷◌, ◌++◌,
  str_eq, ltb, leb, ◌==◌, is_some, min, if◌then◌else◌, length, take, map, find_first, select_where,
  count_where, order_desc,
}
use recall_ai.Proposal.Row.{Relation, related_to}
use recall_ai.Connection.Repository.{Proposal, count_for_item, suggest_many}
use recall_ai.Vault.Row.{VaultItem, VaultChunk, Db}
use recall_ai.Vault.Repository.{get_unscoped, is_among, is_text_among, texts_of}
use recall_ai.Vault.Search.{search_semantic, search_by_tags, get_chunk, unique_texts}

pub record Policy : Type 0 where
  pub one : ℕ
  pub max_per_item : ℕ
  pub judge_max_candidates : ℕ
  pub recall_floor : ℕ
  pub tag_candidates : ℕ
  pub min_score : ℕ
  pub max_candidates : ℕ
  pub min_confidence : ℕ

-- A judge's word on the candidate that a key names.
pub record Judgement : Type 0 where
  pub key : ℕ
  pub keep : Bool
  pub confidence : ℕ
  pub relation : Relation
  pub reason : String
  pub swap : Bool

pub record Candidate : Type 0 where
  pub item : VaultItem
  pub score : Option ℕ

-- The distance of pgvector, `str.strip`, `strip().casefold()`, `sorted`, the id drawn for the row of a
-- target, and what the judge answers: none where it is off or fails.
pub record World : Type 0 where
  pub cosine_distance : List ℕ → List ℕ → ℕ
  pub strip : String → String
  pub fold : String → String
  pub sorted : List String → List String
  pub row_id_for : ℕ → ℕ
  pub judge : VaultItem → List Candidate → Option (List Judgement)

abbrev pub embedding_of : Option VaultChunk → Option (List ℕ)
embedding_of none = none
embedding_of (some c) = c.embedding

unfoldable pub vector_for : ℕ → Db → Option (List ℕ)
unfolding get_chunk
vector_for item_id db = embedding_of (get_chunk item_id 0 db)

-- `_tags_of`, without repetitions.
unfoldable pub tags_of : World → VaultItem → List String
unfolding unique_texts
tags_of w i = unique_texts (texts_of w.fold i.ai_tags) []

abbrev pub candidate : VaultItem → Option ℕ → Candidate
candidate i score = record { item = i; score = score }

-- `candidates`, of a row and its vector.
unfoldable pub candidates : World → Policy → VaultItem → List ℕ → ℕ → Db → List Candidate
unfolding search_semantic
candidates w p i vector limit db =
    map (λ (r : VaultItem × ℕ). candidate r.0 (some (p.one - r.1)))
      (search_semantic w.cosine_distance i.user_id vector
        (if limit == 0 then p.max_candidates else limit)
        (record {
          created_after = none;
          content_types = [];
          category = none;
          exclude_item_id = some i.id;
        })
        db)

abbrev pub is_near : Policy → Candidate → Bool
is_near p c = elim c.score [ none ↦ false | some n ↦ leb p.recall_floor n ]

abbrev pub has_item : ℕ → Candidate → Bool
has_item n c = c.item.id == n

-- `setdefault` of each memory that the tags found.
unfoldable pub with_tagged : List VaultItem → List Candidate → List Candidate
with_tagged [] found = found
with_tagged (i ∷ is) found =
    with_tagged is
      (if is_some (find_first (has_item i.id) found) then found else found ++ candidate i none ∷ [])

unfoldable pub shared : World → List String → Candidate → ℕ
unfolding tags_of is_text_among
shared w tags c = count_where (λ t. is_text_among t (tags_of w c.item)) tags

abbrev pub rank_score : Candidate → ℕ
rank_score c = elim c.score [ none ↦ 0 | some n ↦ n ]

unfoldable pub ceiling_of : Policy → ℕ
ceiling_of p = min p.judge_max_candidates 12

-- `_recall`. Sorted by the last of its keys first: the sorts are stable.
unfoldable pub recall : World → Policy → VaultItem → List ℕ → ℕ → Db → List Candidate
unfolding candidates with_tagged shared search_by_tags ceiling_of
recall w p i vector room db =
    let near = select_where (is_near p) (candidates w p i vector (ceiling_of p * 2) db) in
    let tags = tags_of w i in
    let tagged =
      if length tags == 0
      then []
      else search_by_tags w.strip i.user_id (w.sorted tags) p.tag_candidates (some i.id) db in
    take (min (ceiling_of p) room)
      (order_desc (shared w tags) (order_desc rank_score (with_tagged tagged near)))

abbrev pub proposal : World → Candidate → Relation → Option String → Bool → Proposal
proposal w c relation ai_reason swap = record {
  row_id = w.row_id_for c.item.id;
  target_id = c.item.id;
  score = c.score;
  relation = relation;
  ai_reason = ai_reason;
  swap = swap;
}

abbrev pub is_strong : Policy → Candidate → Bool
is_strong p c = elim c.score [ none ↦ false | some n ↦ leb p.min_score n ]

-- `_floor_only`.
unfoldable pub floor_only : World → Policy → List Candidate → List Proposal
floor_only w p found =
    take p.max_candidates
      (map (λ c. proposal w c related_to none false) (select_where (is_strong p) found))

-- The keys sent, from 1.
unfoldable pub keys_from : ℕ → List Candidate → List ℕ
keys_from n [] = []
keys_from n (c ∷ cs) = n ∷ keys_from (n + 1) cs

-- `_validate` of the judge: a key that was not sent, or that was answered before, is dropped.
unfoldable pub validated : List ℕ → List ℕ → List Judgement → List Judgement
unfolding is_among
validated allowed seen [] = []
validated allowed seen (j ∷ js) =
    let stray = not (is_among j.key allowed) || is_among j.key seen in
    let rest = validated allowed (if stray then seen else j.key ∷ seen) js in
    if stray then rest else j ∷ rest

abbrev pub keyed_from : ℕ → List Candidate → ℕ → Option Candidate
keyed_from n [] key = none
keyed_from n (c ∷ cs) key = if n == key then some c else keyed_from (n + 1) cs key

abbrev pub reason_of : String → Option String
reason_of s = if str_eq s "" then none else some s

abbrev pub propose_found :
    World → Policy → Judgement → Option Candidate → List Proposal → List Proposal
propose_found w p j none rest = rest
propose_found w p j (some c) rest =
    if not j.keep || ltb j.confidence p.min_confidence
    then rest
    else proposal w c j.relation (reason_of j.reason) j.swap ∷ rest

unfoldable pub propose : World → Policy → List Candidate → List Judgement → List Proposal
propose w p found [] = []
propose w p found (j ∷ js) =
    let rest = propose w p found js in propose_found w p j (keyed_from 1 found j.key) rest

unfoldable pub judged : World → Policy → List Candidate → Option (List Judgement) → List Proposal
unfolding floor_only validated propose keys_from
judged w p found none = floor_only w p found
judged w p found (some raw) =
    let judgements = validated (keys_from 1 (take 12 found)) [] raw in
    let proposals = propose w p found judgements in
    if length proposals == 0 && length judgements == 0
    then floor_only w p found
    else take p.max_candidates proposals

-- `_decide`.
unfoldable pub decide : World → Policy → VaultItem → List Candidate → List Proposal
unfolding judged
decide w p i found = judged w p found (w.judge i found)

unfoldable pub derive_from : World → Policy → ℕ → ℕ → VaultItem → Option (List ℕ) → Db → ℕ × Db
unfolding decide recall suggest_many count_for_item
derive_from w p now item_id i none db = (0, db)
derive_from w p now item_id i (some vector) db =
    let room = p.max_per_item - count_for_item i.user_id item_id db in
    let found = recall w p i vector room db in
    if room == 0 || length found == 0
    then (0, db)
    else suggest_many now i.user_id item_id (decide w p i found) db

unfoldable pub derive_found : World → Policy → ℕ → ℕ → Option VaultItem → Db → ℕ × Db
unfolding derive_from vector_for
derive_found w p now item_id none db = (0, db)
derive_found w p now item_id (some i) db = derive_from w p now item_id i (vector_for item_id db) db

-- `derive`.
unfoldable pub derive : World → Policy → ℕ → ℕ → Db → ℕ × Db
unfolding derive_found get_unscoped
derive w p now item_id db = derive_found w p now item_id (get_unscoped item_id db) db

-- ===== src/Vault/Search.antt =====
-- `search_semantic`, `search_by_tags` and the chunks of app/repositories/vault.py. A distance is a whole
-- number of some unit; `cosine_distance` is pgvector's, and the index is read as exact.
use recall_ai.Base.{
  ℕ, ◌*◌, String, Bool, false, not, ◌&&◌, ◌||◌, Option, none, some, List, [], ◌∷◌, ◌++◌, str_eq,
  leb, ◌==◌, is_some, if◌then◌else◌, length, take, find_first, select_where, order_asc, order_desc,
  update_where, with_key,
}
use recall_ai.Vault.Row.{ContentType, VaultItem, VaultChunk, Db}
use recall_ai.Vault.Repository.{
  get, is_text_among, tenant, texts_of, type_text, is_any, is_after, is_category,
}

-- A row of the scan: an item and the distance of one of its chunks.
abbrev pub Hit : Type 0
Hit = ℕ × ℕ

-- What a caller may narrow the search by.
pub record Narrow : Type 0 where
  pub created_after : Option ℕ
  pub content_types : List ContentType
  pub category : Option String
  pub exclude_item_id : Option ℕ

unfoldable pub is_excluded : Option ℕ → ℕ → Bool
is_excluded none n = false
is_excluded (some e) n = n == e

unfoldable pub suits : Narrow → VaultItem → Bool
unfolding is_any is_after is_category type_text is_excluded
suits f i =
    is_after f.created_after i.created_at
    && (is_any (texts_of type_text f.content_types) (type_text i.type)
        && (is_category f.category i.ai_category && not (is_excluded f.exclude_item_id i.id)))

abbrev pub hit_of : Narrow → Option VaultItem → ℕ → List Hit → List Hit
hit_of f none d rest = rest
hit_of f (some i) d rest = if suits f i then (i.id, d) ∷ rest else rest

abbrev pub scored : Narrow → Option VaultItem → Option ℕ → List Hit → List Hit
scored f o none rest = rest
scored f o (some d) rest = hit_of f o d rest

abbrev pub distance_to : (List ℕ → List ℕ → ℕ) → List ℕ → Option (List ℕ) → Option ℕ
distance_to cosine_distance vector none = none
distance_to cosine_distance vector (some e) = some (cosine_distance e vector)

-- The caller's chunks with an embedding, joined with their items.
unfoldable pub hits : (List ℕ → List ℕ → ℕ) → ℕ → List ℕ → Narrow → Db → List VaultChunk → List Hit
unfolding get suits
hits cosine_distance user_id vector f db [] = []
hits cosine_distance user_id vector f db (c ∷ cs) =
    let rest = hits cosine_distance user_id vector f db cs in
    if c.user_id == user_id
    then scored f (get c.vault_item_id user_id db) (distance_to cosine_distance vector c.embedding)
        rest
    else rest

abbrev pub hit_key : Hit → ℕ
hit_key h = h.0

abbrev pub keep_first : Hit → List Hit → List Hit
keep_first h best =
    if is_some (find_first (with_key hit_key h.0) best) then best else best ++ h ∷ []

-- The first distance of each item, until there are `limit` of them.
unfoldable pub best_of : ℕ → List Hit → List Hit → List Hit
best_of limit [] best = best
best_of limit (h ∷ hs) best =
    let best' = keep_first h best in
    let rest = best_of limit hs best' in if leb limit (length best') then best' else rest

abbrev pub resolve_one : Option VaultItem → ℕ → List (VaultItem × ℕ) → List (VaultItem × ℕ)
resolve_one none d rest = rest
resolve_one (some i) d rest = (i, d) ∷ rest

-- The rows themselves, by the scoped read of their ids.
unfoldable pub resolve : ℕ → Db → List Hit → List (VaultItem × ℕ)
unfolding get
resolve user_id db [] = []
resolve user_id db (h ∷ hs) =
    let rest = resolve user_id db hs in resolve_one (get h.0 user_id db) h.1 rest

abbrev pub oversample : ℕ
oversample = 4

unfoldable pub search_semantic :
    (List ℕ → List ℕ → ℕ) → ℕ → List ℕ → ℕ → Narrow → Db → List (VaultItem × ℕ)
unfolding resolve best_of hits
search_semantic cosine_distance user_id vector limit f db =
    let rows =
      take (limit * oversample)
        (order_asc (λ h. h.1) (hits cosine_distance user_id vector f db db.chunks)) in
    order_asc (λ r. r.1) (resolve user_id db (best_of limit rows []))

-- Some of the tags is there.
unfoldable pub has_any : List String → List String → Bool
unfolding is_text_among
has_any [] tags = false
has_any (t ∷ ts) tags = is_text_among t tags || has_any ts tags

-- `dict.fromkeys`, the empty texts left out.
unfoldable pub unique_texts : List String → List String → List String
unfolding is_text_among
unique_texts [] seen = []
unique_texts (t ∷ ts) seen =
    let rest = unique_texts ts (t ∷ seen) in
    if str_eq t "" || is_text_among t seen then rest else t ∷ rest

unfoldable pub search_by_tags :
    (String → String) → ℕ → List String → ℕ → Option ℕ → Db → List VaultItem
unfolding has_any unique_texts is_excluded
search_by_tags strip user_id tags limit exclude_item_id db =
    let wanted = take 8 (unique_texts (texts_of strip tags) []) in
    if length wanted == 0 || limit == 0
    then []
    else take limit (
        order_desc (λ i. i.created_at)
          (select_where
            (λ i.
              tenant user_id i
              && (has_any wanted i.ai_tags && not (is_excluded exclude_item_id i.id)))
            db.items))

abbrev pub is_chunk : ℕ → ℕ → VaultChunk → Bool
is_chunk item_id chunk_index c = c.vault_item_id == item_id && c.chunk_index == chunk_index

unfoldable pub get_chunk : ℕ → ℕ → Db → Option VaultChunk
get_chunk item_id chunk_index db = find_first (is_chunk item_id chunk_index) db.chunks

unfoldable pub rewritten : List ℕ → String → Option ℕ → VaultChunk → VaultChunk
rewritten vector content token_count c = record c {
  embedding = some vector;
  content = content;
  token_count = token_count;
}

-- One row for an item and a position: the table has a unique constraint on them.
unfoldable pub upsert_chunk : ℕ → ℕ → List ℕ → String → ℕ → Option ℕ → Db → Db
unfolding rewritten get_chunk
upsert_chunk item_id user_id vector content chunk_index token_count db =
    if is_some (get_chunk item_id chunk_index db)
    then record db {
      chunks =
          update_where (is_chunk item_id chunk_index) (rewritten vector content token_count)
            db.chunks;
    }
    else record db {
      chunks =
          db.chunks
          ++ record {
            vault_item_id = item_id;
            user_id = user_id;
            chunk_index = chunk_index;
            content = content;
            embedding = some vector;
            token_count = token_count;
          }
            ∷ [];
    }

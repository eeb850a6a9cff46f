-- ===== src/Vault/Hidden.antt =====
-- What a reader no longer finds after a delete, and finds again after a restore: the reads of
-- app/repositories/vault.py beside `delete` and `restore` of app/services/vault_service.py.
use recall_ai.Base.{
  ℕ, zero, suc, ◌*◌, String, Bool, true, false, not, ◌&&◌, ◌||◌, Option, none, some, some-injective,
  List, [], ◌∷◌, ◌≡◌, ◌≢◌, refl, sym, ap, ◌∙◌, arith, ◌==◌, is_none, inl, inr, Bool-cases, length,
  take, All, All-map, All-take, Distinct, Distinct-save, All-order_desc, All-order_asc, order_desc,
  order_asc, select_where, found_select_where,
}
use mathlib.Core.Path.{subst}
use recall_ai.Vault.Row.{VaultItem, Db}
use recall_ai.Vault.Repository.{
  item_key, flush_row, get_row, live_of, get, tenant, is_among, owned_items, drop_rows, page_newest,
  list_for_user, search, Filter, list_filtered, passes, texts_of,
}
use recall_ai.Vault.Search.{
  Hit, Narrow, hits, best_of, resolve_one, resolve, oversample, search_semantic, unique_texts,
  has_any, is_excluded, search_by_tags,
}
use recall_ai.Vault.Trash.{trash}
use recall_ai.Vault.Service.{delete, restore}
use recall_ai.Vault.Lifecycle.{
  live_of-some, row_id, delete_found_lem, in_trash, deleted, binned, restore-delete_row,
}

-- No row of the list is the memory's.
abbrev pub Without : ℕ → List VaultItem → Type 0
Without item_id rows = All (λ x. x.id ≢ item_id) rows

All-drop_rows :
    (P : VaultItem → Type 0) (n : ℕ) (xs : List VaultItem) → All P xs → All P (drop_rows n xs)
unfolding drop_rows
All-drop_rows P zero xs a = a
All-drop_rows P (suc n) [] a = tt
All-drop_rows P (suc n) (x ∷ xs) a = All-drop_rows P n xs a.1

-- No scoped read of a reader's hands out the memory: the read by id, the map of owned memories, the
-- list, the text search, the filtered list, the search by tags and the semantic search.
abbrev pub Unread : ℕ → ℕ → Db → Type 0
Unread item_id reader db =
    (get item_id reader db ≡ none)
    × ((ids : List ℕ) → Without item_id (owned_items ids reader db))
    × ((limit offset : ℕ) → Without item_id (list_for_user reader limit offset db).0)
    × ((ilike : String → Option String → Bool) (pattern : String) (limit offset : ℕ)
        → Without item_id (search ilike reader pattern limit offset db).0)
    × ((limit offset : ℕ) (f : Filter) → Without item_id (list_filtered reader limit offset f db).0)
    × ((strip : String → String) (tags : List String) (limit : ℕ) (exclude : Option ℕ)
        → Without item_id (search_by_tags strip reader tags limit exclude db))
    × ((cosine_distance : List ℕ → List ℕ → ℕ) (vector : List ℕ) (limit : ℕ) (f : Narrow)
        → All (λ r. r.0.id ≢ item_id) (search_semantic cosine_distance reader vector limit f db))

-- A memory whose row is deleted.
module _ (item_id : ℕ) (db : Db) (b : VaultItem) (distinct : Distinct item_key db.items)
    (held : get_row item_id db ≡ some b) (gone : is_none b.deleted_at ≡ false) where
  selected-Without :
      (q : VaultItem → Bool)
      → ((x : VaultItem) → q x ≡ true → is_none x.deleted_at ≡ true)
      → Without item_id (select_where q db.items)
  selected-Without q live =
      All-map (λ x. (get_row x.id db ≡ some x) × (q x ≡ true)) _ _
        (λ x h e.
          let same : x ≡ b = some-injective _ _ (sym h.0 ∙ ap (λ m. get_row m db) e ∙ held) in
          cc (ap (λ (y : VaultItem). is_none y.deleted_at) same, live x h.1, gone))
        (unfold get_row in found_select_where item_key q db.items distinct)

  page_newest-Without :
      (q : VaultItem → Bool) (limit offset : ℕ)
      → ((x : VaultItem) → q x ≡ true → is_none x.deleted_at ≡ true)
      → Without item_id (page_newest q limit offset db).0
  unfolding page_newest
  page_newest-Without q limit offset live =
      let chosen = select_where q db.items in
      let ordered = order_desc (λ i. i.created_at) chosen in
      All-take _ limit (drop_rows offset ordered) (
        All-drop_rows _ offset ordered
          ((All-order_desc (λ i. i.created_at) _ chosen).0 (selected-Without q live)))

  owned_items-Without : (ids : List ℕ) (reader : ℕ) → Without item_id (owned_items ids reader db)
  unfolding owned_items
  owned_items-Without ids reader =
      selected-Without (λ i. is_among i.id ids && tenant reader i) (λ x h. ground (arith, h))

  list_for_user-Without :
      (reader limit offset : ℕ) → Without item_id (list_for_user reader limit offset db).0
  unfolding list_for_user
  list_for_user-Without reader limit offset =
      page_newest-Without (tenant reader) limit offset (λ x h. ground (arith, h))

  search-Without :
      (ilike : String → Option String → Bool) (reader : ℕ) (pattern : String) (limit offset : ℕ)
      → Without item_id (search ilike reader pattern limit offset db).0
  unfolding search
  search-Without ilike reader pattern limit offset =
      page_newest-Without _ limit offset (λ x h. ground (arith, h))

  list_filtered-Without :
      (reader limit offset : ℕ) (f : Filter)
      → Without item_id (list_filtered reader limit offset f db).0
  unfolding list_filtered
  list_filtered-Without reader limit offset f =
      page_newest-Without (λ i. tenant reader i && passes f i) limit offset
        (λ x h. ground (arith, h))

  search_by_tags-Without :
      (strip : String → String) (reader : ℕ) (tags : List String) (limit : ℕ) (exclude : Option ℕ)
      → Without item_id (search_by_tags strip reader tags limit exclude db)
  unfolding search_by_tags
  search_by_tags-Without strip reader tags limit exclude =
      let wanted = take 8 (unique_texts (texts_of strip tags) []) in
      let chosen =
        select_where
          (λ i. tenant reader i && (has_any wanted i.ai_tags && not (is_excluded exclude i.id)))
          db.items in
      elim (Bool-cases (length wanted == 0 || limit == 0)) [
        | inl e ↦ rw e tt
        | inr e ↦ rw e (
            All-take _ limit (order_desc (λ i. i.created_at) chosen) (
              (All-order_desc (λ i. i.created_at) _ chosen).0
                (selected-Without _ (λ x h. ground (arith, h)))))
      ]

  get_hidden : (reader : ℕ) → get item_id reader db ≡ none
  unfolding get
  get_hidden reader = ap (live_of reader) held ∙ unfold live_of in ground (arith, gone)

  resolve_one-Without :
      (reader n d : ℕ) (o : Option VaultItem) (rest : List (VaultItem × ℕ))
      → get n reader db ≡ o
      → All (λ r. r.0.id ≢ item_id) rest
      → All (λ r. r.0.id ≢ item_id) (resolve_one o d rest)
  resolve_one-Without reader n d none rest e a = a
  resolve_one-Without reader n d (some i) rest e a =
      let named : i.id ≡ n = unfold get in row_id n db (live_of-some reader (get_row n db) e).0 in
      (λ q. absurd (cc (sym e, ap (λ m. get m reader db) (sym named ∙ q), get_hidden reader)), a)

  resolve-Without :
      (reader : ℕ) (hs : List Hit) → All (λ r. r.0.id ≢ item_id) (resolve reader db hs)
  unfolding resolve
  resolve-Without reader [] = tt
  resolve-Without reader (h ∷ hs) =
      resolve_one-Without reader h.0 h.1 (get h.0 reader db) (resolve reader db hs) refl
        (resolve-Without reader hs)

  search_semantic-Without :
      (cosine_distance : List ℕ → List ℕ → ℕ) (reader : ℕ) (vector : List ℕ) (limit : ℕ)
      (f : Narrow)
      → All (λ r. r.0.id ≢ item_id) (search_semantic cosine_distance reader vector limit f db)
  unfolding search_semantic
  search_semantic-Without cosine_distance reader vector limit f =
      let rows =
        take (limit * oversample)
          (order_asc (λ h. h.1) (hits cosine_distance reader vector f db db.chunks)) in
      let found = resolve reader db (best_of limit rows []) in
      (All-order_asc (λ r. r.1) _ found).0 (resolve-Without reader (best_of limit rows []))

  reads-Without : (reader : ℕ) → Unread item_id reader db
  reads-Without reader = (
    get_hidden reader,
    λ ids. owned_items-Without ids reader,
    list_for_user-Without reader,
    λ ilike. search-Without ilike reader,
    list_filtered-Without reader,
    λ strip. search_by_tags-Without strip reader,
    λ cosine_distance. search_semantic-Without cosine_distance reader,
  )

-- A delete takes a live memory of the caller's out of the scoped reads, for every reader: out of the read
-- by id, the map of owned memories, the list, the text search, the filtered list, the search by tags
-- and the semantic search. A restore at any later time brings the same row back, with a new
-- `updated_at`, beside its chunks, its connections and its objects. The memory was not purged, and the
-- ids are distinct.
pub restore-delete :
    (item_id user_id : ℕ) (db : Db) (i : VaultItem)
    → get item_id user_id db ≡ some i
    → i.purged_at ≡ none
    → Distinct item_key db.items
    → (now later : ℕ)
    → let db' = (delete now item_id user_id db).1 in
      let back = restore later item_id user_id db' in
      ((delete now item_id user_id db).0 ≡ true)
      × ((reader : ℕ) → Unread item_id reader db')
      × (back.0 ≡ some (record i { updated_at = later }))
      × (get item_id user_id back.1 ≡ some (record i { updated_at = later }))
      × (back.1.chunks ≡ db.chunks)
      × (back.1.connections ≡ db.connections)
      × (back.1.objects ≡ db.objects)
restore-delete item_id user_id db i mine whole distinct now later =
    let db' = deleted item_id user_id db i mine whole now later in
    let b = binned item_id user_id db i mine whole now later in
    let row = restore-delete_row item_id user_id db i mine whole now later in
    let held : get_row item_id db' ≡ some b = in_trash item_id user_id db i mine whole now later in
    let still : Distinct item_key db'.items =
      subst (λ (o : Bool × Db). Distinct item_key o.1.items)
        (sym (delete_found_lem item_id user_id db i mine whole now later))
        (unfold trash in unfold flush_row in Distinct-save item_key b db.items distinct) in
    let reads = reads-Without item_id db' b still held refl in
    (row.0, reads, row.2, row.3, row.4, row.5, row.6)

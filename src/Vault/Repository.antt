-- ===== src/Vault/Repository.antt =====
-- The reads of app/repositories/vault.py. `tenant` is the predicate that every scoped read states.
use recall_ai.Base.{
  ℕ, zero, suc, ◌-◌, String, Bool, true, false, not, ◌&&◌, ◌||◌, Option, none, some, List, [], ◌∷◌,
  str_eq, text_is, ltb, leb, ◌==◌, is_none, is_some, if◌then◌else◌, length, take, find_first,
  select_where, order_desc, order_asc, save, Value, null, str, get_key,
}
use recall_ai.Pipeline.Row.{ExtractionRun, is_running}
use recall_ai.Vault.Row.{
  ContentType, youtube, article, pdf, document, note, instagram, facebook, tiktok, linkedin, voice,
  image, ProcessingStatus, pending, processing, completed, failed, skipped, VaultItem, Db, minutes,
}

abbrev pub item_key : VaultItem → ℕ
item_key i = i.id

-- `session.add` with a flush, of a new row.
unfoldable pub add : VaultItem → Db → Db
add i db = record db { items = save item_key i db.items }

-- The flush of a row that was changed: `updated_at` has an `onupdate`.
unfoldable pub flush_row : ℕ → VaultItem → Db → Db
flush_row now i db = record db { items = save item_key (record i { updated_at = now }) db.items }

unfoldable pub get_row : ℕ → Db → Option VaultItem
get_row item_id db = find_first (λ i. i.id == item_id) db.items

unfoldable pub live_of : ℕ → Option VaultItem → Option VaultItem
live_of user_id none = none
live_of user_id (some i) =
    if not (i.user_id == user_id) || is_some i.deleted_at then none else some i

unfoldable pub get : ℕ → ℕ → Db → Option VaultItem
unfolding live_of get_row
get item_id user_id db = live_of user_id (get_row item_id db)

abbrev pub tenant : ℕ → VaultItem → Bool
tenant user_id i = i.user_id == user_id && is_none i.deleted_at

unfoldable pub get_by_source_url : ℕ → String → Db → Option VaultItem
get_by_source_url user_id url db =
    find_first (λ i. tenant user_id i && text_is url i.source_url) db.items

unfoldable pub alive : Option VaultItem → Option VaultItem
alive none = none
alive (some i) = if is_some i.deleted_at then none else some i

unfoldable pub get_unscoped : ℕ → Db → Option VaultItem
unfolding alive get_row
get_unscoped item_id db = alive (get_row item_id db)

-- `x in ids`.
unfoldable pub is_among : ℕ → List ℕ → Bool
is_among n [] = false
is_among n (x ∷ xs) = x == n || is_among n xs

-- The rows; the source keys them by id.
unfoldable pub owned_items : List ℕ → ℕ → Db → List VaultItem
unfolding is_among
owned_items item_ids user_id db =
    select_where (λ i. is_among i.id item_ids && tenant user_id i) db.items

unfoldable pub drop_rows {ℓ} : {A : Type ℓ} → ℕ → List A → List A
drop_rows zero xs = xs
drop_rows (suc n) [] = []
drop_rows (suc n) (x ∷ xs) = drop_rows n xs

-- The rows of a page, and the total of the window, which an empty page does not carry.
unfoldable pub page : List VaultItem → ℕ → ℕ → List VaultItem × ℕ
unfolding drop_rows
page ordered limit offset =
    let rows = take limit (drop_rows offset ordered) in
    (rows, if length rows == 0 then 0 else length ordered)

unfoldable pub page_newest : (VaultItem → Bool) → ℕ → ℕ → Db → List VaultItem × ℕ
unfolding page
page_newest where_ limit offset db =
    page (order_desc (λ i. i.created_at) (select_where where_ db.items)) limit offset

unfoldable pub list_for_user : ℕ → ℕ → ℕ → Db → List VaultItem × ℕ
unfolding page_newest
list_for_user user_id limit offset db = page_newest (tenant user_id) limit offset db

-- `ilike` matches a pattern against a column.
unfoldable pub search :
    (String → Option String → Bool) → ℕ → String → ℕ → ℕ → Db → List VaultItem × ℕ
unfolding page_newest
search ilike user_id pattern limit offset db =
    page_newest
      (λ i.
        tenant user_id i
        && (ilike pattern i.title || (ilike pattern i.summary || ilike pattern i.content)))
      limit offset db

unfoldable pub type_text : ContentType → String
type_text youtube = "youtube"
type_text article = "article"
type_text pdf = "pdf"
type_text document = "document"
type_text note = "note"
type_text instagram = "instagram"
type_text facebook = "facebook"
type_text tiktok = "tiktok"
type_text linkedin = "linkedin"
type_text voice = "voice"
type_text image = "image"

unfoldable pub status_text : ProcessingStatus → String
status_text pending = "pending"
status_text processing = "processing"
status_text completed = "completed"
status_text failed = "failed"
status_text skipped = "skipped"

abbrev pub has_status : ProcessingStatus → VaultItem → Bool
has_status s i = str_eq (status_text i.processing_status) (status_text s)

-- `x in texts`.
unfoldable pub is_text_among : String → List String → Bool
is_text_among t [] = false
is_text_among t (x ∷ xs) = str_eq x t || is_text_among t xs

-- The filters of `list_filtered`. An empty list or a missing value filters nothing.
pub record Filter : Type 0 where
  pub created_after : Option ℕ
  pub content_types : List ContentType
  pub category : Option String
  pub tags : List String
  pub statuses : List ProcessingStatus

abbrev pub texts_of {ℓ} : {A : Type ℓ} → (A → String) → List A → List String
texts_of f [] = []
texts_of f (x ∷ xs) = f x ∷ texts_of f xs

unfoldable pub is_any : List String → String → Bool
unfolding is_text_among
is_any [] t = true
is_any (x ∷ xs) t = is_text_among t (x ∷ xs)

unfoldable pub is_after : Option ℕ → ℕ → Bool
is_after none t = true
is_after (some after) t = leb after t

unfoldable pub is_category : Option String → Option String → Bool
is_category none c = true
is_category (some wanted) c = if str_eq wanted "" then true else text_is wanted c

-- `@>` on jsonb: every tag asked for is there.
unfoldable pub has_all : List String → List String → Bool
unfolding is_text_among
has_all [] tags = true
has_all (t ∷ ts) tags = is_text_among t tags && has_all ts tags

unfoldable pub passes : Filter → VaultItem → Bool
unfolding is_any is_after is_category has_all type_text status_text
passes f i =
    is_after f.created_after i.created_at
    && (is_any (texts_of type_text f.content_types) (type_text i.type)
        && (is_category f.category i.ai_category
            && (has_all f.tags i.ai_tags
                && is_any (texts_of status_text f.statuses) (status_text i.processing_status))))

unfoldable pub list_filtered : ℕ → ℕ → ℕ → Filter → Db → List VaultItem × ℕ
unfolding page_newest passes
list_filtered user_id limit offset f db =
    page_newest (λ i. tenant user_id i && passes f i) limit offset db

unfoldable pub has_running : ℕ → List ExtractionRun → Bool
unfolding is_running
has_running item_id runs =
    is_some (find_first (λ r. r.vault_item_id == item_id && is_running r) runs)

-- Items in `status` that nobody works on: the cutoff is `older_than_minutes` before `now`, and an
-- item with a crawl running is left to the sweep of runs.
unfoldable pub list_stranded : ℕ → ProcessingStatus → ℕ → ℕ → Db → List VaultItem
unfolding has_running status_text
list_stranded now status older_than_minutes limit db = take limit (
    order_asc (λ i. i.updated_at)
      (select_where
        (λ i.
          has_status status i
          && (ltb i.updated_at (now - minutes older_than_minutes)
              && (is_none i.deleted_at && not (has_running i.id db.runs))))
        db.items))

-- `metadata[key].astext`, which is NULL for a missing key and for null.
unfoldable pub astext : Option Value → Option String
astext none = none
astext (some null) = none
astext (some (str t)) = some t
astext (some (Value.flag true)) = some "true"
astext (some (Value.flag false)) = some "false"
astext (some (Value.json t)) = some t

unfoldable pub list_slow_captures : ℕ → String → ℕ → ℕ → Db → List VaultItem
unfolding astext status_text
list_slow_captures now source older_than_minutes limit db = take limit (
    order_asc (λ i. i.created_at)
      (select_where
        (λ i.
          (has_status pending i || has_status processing i)
          && (ltb i.created_at (now - minutes older_than_minutes)
              && (is_none i.deleted_at
                  && (text_is source (astext (get_key "source" i.item_metadata))
                      && is_none (astext (get_key "nudged_at" i.item_metadata))))))
        db.items))

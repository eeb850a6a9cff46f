-- ===== src/Space/Service.antt =====
-- The reading and curating operations of app/services/space_service.py. An operation raises before
-- it writes, so its result holds the new database, and an error leaves the old one.
use recall_ai.Base.{
  ℕ, ◌+◌, ◌-◌, String, Bool, true, false, not, Option, none, some, List, [], ◌∷◌, ◌||◌, str_eq,
  ◌==◌, ltb, is_some, if◌then◌else◌, length, take, select_where, count_where, Result, ok, err,
  ◌>>=◌, ◌>>◌, guard, take_chars, text_append,
}
use recall_ai.Space.Row.{
  SpaceRole, viewer, editor, owner, Visibility, public, Space, SpaceMember, VaultItem, Db,
}
use recall_ai.Space.Repository.{
  add, get_for_viewer, get_by_slug, slug_exists, vault_get, add_items as insert_own_items,
  remove_item as delete_item, list_items, remove_member as delete_member,
}

-- `SpaceNotFound` and `SpaceForbidden`.
pub data SpaceError : Type 0 where
  not_found forbidden : SpaceError

unfoldable pub rank : SpaceRole → ℕ
rank viewer = 0
rank editor = 1
rank owner = 2

unfoldable pub require : SpaceRole → SpaceRole → Result SpaceError (Unit {0})
unfolding rank
require role needed = guard (not (ltb (rank role) (rank needed))) forbidden

unfoldable pub found_or_raise : Option (Space × SpaceRole) → Result SpaceError (Space × SpaceRole)
found_or_raise none = err not_found
found_or_raise (some p) = ok p

unfoldable pub viewable : ℕ → ℕ → Db → Result SpaceError (Space × SpaceRole)
unfolding found_or_raise
viewable space_id user_id db = found_or_raise (get_for_viewer space_id user_id db)

pub record SpaceSummary : Type 0 where
  pub space : Space
  pub role : SpaceRole
  pub memory_count : ℕ
  pub member_count : ℕ

-- `count_items_bulk` and `count_members_bulk`, for one Space.
unfoldable pub summarise : Db → Space × SpaceRole → SpaceSummary
summarise db (s, role) = record {
  space = s;
  role = role;
  memory_count = length (list_items s.id db);
  member_count = count_where (λ (m : SpaceMember). m.space_id == s.id) db.members + 1;
}

unfoldable pub summary : ℕ → ℕ → Db → Result SpaceError SpaceSummary
unfolding viewable summarise
summary space_id user_id db = do p ← viewable space_id user_id db; ok (summarise db p)

abbrev is_public : Visibility → Bool
is_public public = true
is_public _ = false

unfoldable pub publish : Db → Option Space → Option (Space × List VaultItem)
publish db none = none
publish db (some s) = if is_public s.visibility then some (s, list_items s.id db) else none

-- The unauthenticated share page.
unfoldable pub get_public : String → Db → Option (Space × List VaultItem)
unfolding publish
get_public slug db = publish db (get_by_slug slug db)

-- The optional fields of `update`.
pub record SpaceChanges : Type 0 where
  pub name : Option String
  pub description : Option String
  pub visibility : Option Visibility
  pub icon : Option String
  pub emoji : Option String
  pub accent : Option String
  pub pinned : Option Bool

abbrev pub given {ℓ} : {A : Type ℓ} → Option A → A → A
given none old = old
given (some x) old = x

abbrev pub given_some : Option String → Option String → Option String
given_some none old = old
given_some (some x) old = some x

-- `x or None`, where the field was given.
abbrev pub given_or_none : Option String → Option String → Option String
given_or_none none old = old
given_or_none (some x) old = if str_eq x "" then none else some x

unfoldable pub changed : ℕ → SpaceChanges → Space → Space
changed now c s = record s {
  name = given c.name s.name;
  description = given_some c.description s.description;
  icon = given_or_none c.icon s.icon;
  emoji = given_or_none c.emoji s.emoji;
  accent = given_or_none c.accent s.accent;
  pinned = given c.pinned s.pinned;
  visibility = given c.visibility s.visibility;
  updated_at = now;
}

abbrev pub role_for_update : SpaceChanges → SpaceRole
role_for_update c = if is_some c.visibility then owner else editor

unfoldable pub update : ℕ → SpaceChanges → ℕ → ℕ → Db → Result SpaceError Db
unfolding viewable require changed add
update now c space_id user_id db = do
  (s, role) ← viewable space_id user_id db
  require role (role_for_update c)
  ok (add (changed now c s) db)

unfoldable pub delete : ℕ → ℕ → ℕ → Db → Result SpaceError Db
unfolding viewable require add
delete now space_id user_id db = do
  (s, role) ← viewable space_id user_id db
  require role owner
  ok (add (record s { deleted_at = some now }) db)

pub record AddResult : Type 0 where
  pub added : ℕ
  pub skipped : ℕ

abbrev pub max_items_per_request : ℕ
max_items_per_request = 100

unfoldable pub contains : List ℕ → ℕ → Bool
contains [] x = false
contains (y ∷ ys) x = y == x || contains ys x

-- `list(dict.fromkeys(ids))`: the first of each, in order; `seen` holds the earlier ones.
unfoldable pub dedupe_from : List ℕ → List ℕ → List ℕ
unfolding contains
dedupe_from seen [] = []
dedupe_from seen (x ∷ xs) =
    let fresh = x ∷ dedupe_from (x ∷ seen) xs in
    let again = dedupe_from seen xs in if contains seen x then again else fresh

unfoldable pub wanted : List ℕ → List ℕ
unfolding dedupe_from
wanted ids = take max_items_per_request (dedupe_from [] ids)

abbrev pub is_owned : ℕ → Db → ℕ → Bool
is_owned actor_id db i = is_some (vault_get i actor_id db)

unfoldable pub attach : ℕ → ℕ → ℕ → List ℕ → Db → AddResult × Db
unfolding wanted insert_own_items
attach now space_id actor_id item_ids db =
    let asked = wanted item_ids in
    let allowed = select_where (is_owned actor_id db) asked in
    let (n, db') = insert_own_items space_id allowed actor_id now db in
    (record { added = n; skipped = length asked - n }, db')

unfoldable pub add_items : ℕ → ℕ → ℕ → List ℕ → Db → Result SpaceError (AddResult × Db)
unfolding viewable require attach
add_items now space_id user_id item_ids db = do
  (s, role) ← viewable space_id user_id db
  require role editor
  ok (attach now space_id user_id item_ids db)

unfoldable pub remove_item : ℕ → ℕ → ℕ → Db → Result SpaceError (Bool × Db)
unfolding viewable require delete_item
remove_item space_id user_id item_id db = do
  (s, role) ← viewable space_id user_id db
  require role editor
  ok (delete_item space_id item_id db)

unfoldable pub remove_member : ℕ → ℕ → ℕ → Db → Result SpaceError (Bool × Db)
unfolding viewable require delete_member
remove_member space_id user_id member_id db = do
  (s, role) ← viewable space_id user_id db
  if member_id == user_id then ok tt else require role owner
  guard (not (member_id == s.user_id)) forbidden
  ok (delete_member space_id member_id db)

-- `slugify(name)[:80] or "space"`, with the text that the slugify package gives.
unfoldable pub slug_base : String → String
slug_base slugified = let cut = take_chars 80 slugified in if str_eq cut "" then "space" else cut

-- The loop of `_unique_slug` over the random suffixes that it draws, `none` where they run out.
unfoldable pub free_slug : Db → String → String → List String → Option String
free_slug db base slug [] = if slug_exists slug db then none else some slug
free_slug db base slug (h ∷ draws) =
    let rest = free_slug db base (text_append base (text_append "-" h)) draws in
    if slug_exists slug db then rest else some slug

unfoldable pub unique_slug : Db → String → List String → Option String
unfolding free_slug slug_base
unique_slug db slugified draws = free_slug db (slug_base slugified) (slug_base slugified) draws

-- The row that `create` inserts; `draft` holds the fields that the caller gives.
unfoldable pub create_with :
    ℕ → Space → List ℕ → Db → Option String → Option (Space × AddResult × Db)
unfolding attach add
create_with now draft item_ids db none = none
create_with now draft item_ids db (some slug) =
    let s = record draft { slug = slug } in
    let (result, db') = attach now s.id s.user_id item_ids (add s db) in some (s, result, db')

unfoldable pub create :
    ℕ → Space → String → List String → List ℕ → Db → Option (Space × AddResult × Db)
unfolding create_with unique_slug
create now draft slugified draws item_ids db =
    create_with now draft item_ids db (unique_slug db slugified draws)

-- ===== src/Space/Repository.antt =====
-- app/repositories/space.py, and `get` of app/repositories/vault.py.
use recall_ai.Base.{
  ℕ, ◌+◌, String, Bool, Option, none, some, List, [], ◌∷◌, ◌++◌, ◌&&◌, str_eq, ◌==◌, is_none,
  is_some, if◌then◌else◌, find_first, select_where, update_where, delete_where, save, order_desc,
}
use recall_ai.Space.Row.{
  SpaceRole, viewer, editor, owner, Space, SpaceItem, SpaceMember, SpaceInvite, VaultItem, Db,
}

-- `SpaceRole(value)`, or `viewer` for a text that is no role.
unfoldable pub role_or_viewer : String → SpaceRole
role_or_viewer value =
    if str_eq value "owner" then owner else if str_eq value "editor" then editor else viewer

-- `role.value`.
unfoldable pub role_text : SpaceRole → String
role_text viewer = "viewer"
role_text editor = "editor"
role_text owner = "owner"

abbrev pub space_key : Space → ℕ
space_key s = s.id

abbrev pub is_live_space : ℕ → Space → Bool
is_live_space space_id s = s.id == space_id && is_none s.deleted_at

abbrev pub is_member : ℕ → ℕ → SpaceMember → Bool
is_member space_id user_id m = m.space_id == space_id && m.user_id == user_id

unfoldable pub add : Space → Db → Db
add s db = record db { spaces = save space_key s db.spaces }

-- The role that the joined row gives: owner, the member's own, or none.
unfoldable pub effective_role : ℕ → Space → Option SpaceMember → Option (Space × SpaceRole)
effective_role user_id s none = if s.user_id == user_id then some (s, owner) else none
effective_role user_id s (some m) =
    if s.user_id == user_id then some (s, owner) else some (s, role_or_viewer m.role)

unfoldable pub get_live : ℕ → Db → Option Space
get_live space_id db = find_first (is_live_space space_id) db.spaces

unfoldable pub viewer_of : ℕ → ℕ → Option Space → Db → Option (Space × SpaceRole)
unfolding effective_role
viewer_of space_id user_id none db = none
viewer_of space_id user_id (some s) db =
    effective_role user_id s (find_first (is_member space_id user_id) db.members)

-- The outer join of a live Space with the caller's member row.
unfoldable pub get_for_viewer : ℕ → ℕ → Db → Option (Space × SpaceRole)
unfolding viewer_of get_live
get_for_viewer space_id user_id db = viewer_of space_id user_id (get_live space_id db) db

unfoldable pub get_by_slug : String → Db → Option Space
get_by_slug slug db = find_first (λ s. str_eq s.slug slug && is_none s.deleted_at) db.spaces

unfoldable pub slug_exists : String → Db → Bool
slug_exists slug db = is_some (find_first (λ (s : Space). str_eq s.slug slug) db.spaces)

-- `VaultRepository.get`.
abbrev pub own : ℕ → Option VaultItem → Option VaultItem
own user_id none = none
own user_id (some i) = if i.user_id == user_id && is_none i.deleted_at then some i else none

unfoldable pub vault_get : ℕ → ℕ → Db → Option VaultItem
vault_get item_id user_id db =
    own user_id (find_first (λ (i : VaultItem). i.id == item_id) db.vault)

abbrev pub is_item : ℕ → ℕ → SpaceItem → Bool
is_item space_id item_id i = i.space_id == space_id && i.vault_item_id == item_id

-- INSERT … ON CONFLICT DO NOTHING of one row: the rows inserted, and the table.
unfoldable pub insert_item : SpaceItem → List SpaceItem → ℕ × List SpaceItem
insert_item r items =
    if is_some (find_first (is_item r.space_id r.vault_item_id) items)
    then (0, items)
    else (1, items ++ r ∷ [])

unfoldable pub insert_items : ℕ → ℕ → ℕ → List ℕ → List SpaceItem → ℕ × List SpaceItem
unfolding insert_item
insert_items space_id added_by now [] items = (0, items)
insert_items space_id added_by now (i ∷ ids) items =
    let row : SpaceItem = record {
      space_id = space_id;
      vault_item_id = i;
      added_by = added_by;
      added_at = now;
    } in
    let (n, items') = insert_item row items in
    let (k, items'') = insert_items space_id added_by now ids items' in (n + k, items'')

-- The ids arrive without repeats.
unfoldable pub add_items : ℕ → List ℕ → ℕ → ℕ → Db → ℕ × Db
unfolding insert_items
add_items space_id ids added_by now db =
    let (n, items) = insert_items space_id added_by now ids db.items in
    (n, record db { items = items })

unfoldable pub remove_item : ℕ → ℕ → Db → Bool × Db
remove_item space_id item_id db = (
  is_some (find_first (is_item space_id item_id) db.items),
  record db { items = delete_where (is_item space_id item_id) db.items },
)

-- The join with `vault_items` that drops deleted memories.
abbrev live_item : Option VaultItem → List VaultItem
live_item none = []
live_item (some i) = if is_none i.deleted_at then i ∷ [] else []

unfoldable pub join_vault : List SpaceItem → List VaultItem → List VaultItem
join_vault [] vault = []
join_vault (r ∷ rows) vault =
    live_item (find_first (λ (i : VaultItem). i.id == r.vault_item_id) vault)
    ++ join_vault rows vault

unfoldable pub list_items : ℕ → Db → List VaultItem
unfolding join_vault
list_items space_id db =
    join_vault
      (order_desc (λ r. r.added_at)
        (select_where (λ (r : SpaceItem). r.space_id == space_id) db.items))
      db.vault

unfoldable pub add_member : ℕ → ℕ → SpaceRole → Option ℕ → Db → Db
unfolding role_text
add_member space_id user_id role invited_by db =
    if is_some (find_first (is_member space_id user_id) db.members)
    then record db {
      members =
          update_where (is_member space_id user_id) (λ m. record m { role = role_text role })
            db.members;
    }
    else record db {
      members =
          db.members
          ++ record {
            space_id = space_id;
            user_id = user_id;
            role = role_text role;
            invited_by = invited_by;
          }
            ∷ [];
    }

unfoldable pub remove_member : ℕ → ℕ → Db → Bool × Db
remove_member space_id user_id db = (
  is_some (find_first (is_member space_id user_id) db.members),
  record db { members = delete_where (is_member space_id user_id) db.members },
)

abbrev pub invite_key : SpaceInvite → ℕ
invite_key i = i.id

unfoldable pub add_invite : SpaceInvite → Db → Db
add_invite i db = record db { invites = save invite_key i db.invites }

abbrev pub has_token : String → SpaceInvite → Bool
has_token h i = str_eq i.token_hash h

unfoldable pub get_invite_by_hash : String → Db → Option SpaceInvite
get_invite_by_hash h db = find_first (has_token h) db.invites

-- ===== src/Space/Reach.antt =====
-- What holds of the Spaces' tables over any sequence of requests.
use recall_ai.Base.{
  ℕ, String, Bool, true, some, List, [], ◌∷◌, ◌≡◌, ◌≢◌, sym, ap, ◌∙◌, arith, ◌==◌, inl, inr,
  Bool-cases, Option-cases, is_some, find_first, select_where, All, All-append, All-save,
  All-delete_where, All-select_where, ok, All-pointwise,
}
use recall_ai.Space.Row.{
  SpaceRole, owner, Space, SpaceItem, SpaceMember, SpaceInvite, VaultItem, Db,
}
use recall_ai.Space.Repository.{
  role_or_viewer, role_text, add, get_for_viewer, is_member, is_item, insert_item, insert_items,
  add_items as insert_own_items, remove_item as delete_item, remove_member as delete_member,
  vault_get, add_invite, invite_key,
}
use recall_ai.Space.Service.{
  SpaceChanges, update, delete, changed, add_items, AddResult, attach, wanted, is_owned,
  remove_item, remove_member,
}
use recall_ai.Space.Invites.{create_invite, new_invite, not_owner}
use recall_ai.Space.Joining.{role_round_trip}

-- A row of `space_items` names a memory that belongs to the person who added it.
abbrev pub IsContributed : List VaultItem → SpaceItem → Type 0
IsContributed vault r =
    (v : VaultItem) × (find_first (λ (i : VaultItem). i.id == r.vault_item_id) vault ≡ some v)
    × (v.user_id ≡ r.added_by)

pub record IsSound (vault : List VaultItem) (db : Db) : Type 0 where
  pub same_vault : db.vault ≡ vault
  pub members : All (λ (m : SpaceMember). role_or_viewer m.role ≢ owner) db.members
  pub invites : All (λ (i : SpaceInvite). role_or_viewer i.role ≢ owner) db.invites
  pub items : All (IsContributed vault) db.items

-- The memory `i` is this person's.
abbrev Owns : List VaultItem → ℕ → ℕ → Type 0
Owns vault actor_id i =
    (v : VaultItem) × (find_first (λ (x : VaultItem). x.id == i) vault ≡ some v)
    × (v.user_id ≡ actor_id)

module _ (vault : List VaultItem) where
  -- Writing a Space's own row touches none of this.
  pub add-IsSound : (s : Space) {db : Db} → IsSound vault db → IsSound vault (add s db)
  unfolding add
  add-IsSound s h = record {
    same_vault = h.same_vault;
    members = h.members;
    invites = h.invites;
    items = h.items;
  }

  owned_memory :
      (i actor_id : ℕ) (db : Db)
      → db.vault ≡ vault
      → is_owned actor_id db i ≡ true
      → Owns vault actor_id i
  unfolding vault_get
  owned_memory i actor_id db same h =
      elim (Option-cases (find_first (λ (x : VaultItem). x.id == i) db.vault)) [
        | inl e ↦ absurd (ground (arith, e))
        | inr (v, e) ↦
            (v, ap (find_first (λ (x : VaultItem). x.id == i)) (sym same) ∙ e, ground (arith, e))
      ]

  insert_items-IsContributed :
      (space_id actor_id now : ℕ) (ids : List ℕ) (items : List SpaceItem)
      → All (Owns vault actor_id) ids
      → All (IsContributed vault) items
      → All (IsContributed vault) (insert_items space_id actor_id now ids items).1
  unfolding insert_items insert_item
  insert_items-IsContributed space_id actor_id now [] items k h = h
  insert_items-IsContributed space_id actor_id now (i ∷ ids) items k h =
      elim (Bool-cases (is_some (find_first (is_item space_id i) items))) [
        | inl e ↦ rw e (insert_items-IsContributed space_id actor_id now ids items k.1 h)
        | inr e ↦ rw e (
            insert_items-IsContributed space_id actor_id now ids _ k.1
              (All-append (IsContributed vault) items _ h (k.0, tt)))
      ]

  pub attach-IsSound :
      (now space_id actor_id : ℕ) (ids : List ℕ) {db : Db}
      → IsSound vault db
      → IsSound vault (attach now space_id actor_id ids db).1
  unfolding attach insert_own_items
  attach-IsSound now space_id actor_id ids {db} h = record {
    same_vault = h.same_vault;
    members = h.members;
    invites = h.invites;
    items =
        insert_items-IsContributed space_id actor_id now
          (select_where (is_owned actor_id db) (wanted ids)) db.items
          ((All-select_where (Owns vault actor_id) (is_owned actor_id db) (wanted ids)).1
            (All-pointwise _ (wanted ids) (λ i. owned_memory i actor_id db h.same_vault)))
          h.items;
  }

  pub update-IsSound :
      (now : ℕ) (c : SpaceChanges) (space_id user_id : ℕ) (db : Db) {db' : Db}
      → IsSound vault db
      → update now c space_id user_id db ≡ ok db'
      → IsSound vault db'
  unfolding update
  update-IsSound now c space_id user_id db {db'} h e =
      elim (Option-cases (get_for_viewer space_id user_id db)) [
        | inl g ↦ absurd (ground (arith, g))
        | inr ((s, role), g) ↦
            let written : db' ≡ add (changed now c s) db = ground (arith, g) in
            rw written (add-IsSound (changed now c s) h)
      ]

  pub delete-IsSound :
      (now space_id user_id : ℕ) (db : Db) {db' : Db}
      → IsSound vault db
      → delete now space_id user_id db ≡ ok db'
      → IsSound vault db'
  unfolding delete
  delete-IsSound now space_id user_id db {db'} h e =
      elim (Option-cases (get_for_viewer space_id user_id db)) [
        | inl g ↦ absurd (ground (arith, g))
        | inr ((s, role), g) ↦
            let written : db' ≡ add (record s { deleted_at = some now }) db = ground (arith, g) in
            rw written (add-IsSound (record s { deleted_at = some now }) h)
      ]

  pub add_items-IsSound :
      (now space_id user_id : ℕ) (ids : List ℕ) (db : Db) {r : AddResult} {db' : Db}
      → IsSound vault db
      → add_items now space_id user_id ids db ≡ ok (r, db')
      → IsSound vault db'
  unfolding add_items
  add_items-IsSound now space_id user_id ids db {r} {db'} h e =
      elim (Option-cases (get_for_viewer space_id user_id db)) [
        | inl g ↦ absurd (ground (arith, g))
        | inr ((s, role), g) ↦
            let written : db' ≡ (attach now space_id user_id ids db).1 = ground (arith, g) in
            rw written (attach-IsSound now space_id user_id ids h)
      ]

  pub remove_item-IsSound :
      (space_id user_id item_id : ℕ) (db : Db) {there : Bool} {db' : Db}
      → IsSound vault db
      → remove_item space_id user_id item_id db ≡ ok (there, db')
      → IsSound vault db'
  unfolding remove_item
  remove_item-IsSound space_id user_id item_id db {there} {db'} h e =
      elim (Option-cases (get_for_viewer space_id user_id db)) [
        | inl g ↦ absurd (ground (arith, g))
        | inr ((s, role), g) ↦
            let written : db' ≡ (delete_item space_id item_id db).1 = ground (arith, g) in
            rw written (record {
              same_vault = unfold delete_item in h.same_vault;
              members = unfold delete_item in h.members;
              invites = unfold delete_item in h.invites;
              items =
                  unfold delete_item in
                  All-delete_where (IsContributed vault) (is_item space_id item_id) db.items
                    h.items;
            })
      ]

  pub remove_member-IsSound :
      (space_id user_id member_id : ℕ) (db : Db) {there : Bool} {db' : Db}
      → IsSound vault db
      → remove_member space_id user_id member_id db ≡ ok (there, db')
      → IsSound vault db'
  unfolding remove_member
  remove_member-IsSound space_id user_id member_id db {there} {db'} h e =
      elim (Option-cases (get_for_viewer space_id user_id db)) [
        | inl g ↦ absurd (ground (arith, g))
        | inr ((s, role), g) ↦
            let written : db' ≡ (delete_member space_id member_id db).1 = ground (arith, g) in
            rw written (record {
              same_vault = unfold delete_member in h.same_vault;
              members =
                  unfold delete_member in
                  All-delete_where (λ m. role_or_viewer m.role ≢ owner)
                    (is_member space_id member_id) db.members h.members;
              invites = unfold delete_member in h.invites;
              items = unfold delete_member in h.items;
            })
      ]

  granted_below_owner : (r : SpaceRole) → not_owner r ≡ true → role_or_viewer (role_text r) ≢ owner
  granted_below_owner r h e = ground (arith, role_round_trip r)

  pub create_invite-IsSound :
      (id expires space_id user_id : ℕ) (token : String) (r : SpaceRole) (db : Db) {db' : Db}
      → IsSound vault db
      → create_invite id token expires space_id user_id r db ≡ ok db'
      → IsSound vault db'
  unfolding create_invite
  create_invite-IsSound id expires space_id user_id token r db {db'} h e =
      elim (Option-cases (get_for_viewer space_id user_id db)) [
        | inl g ↦ absurd (ground (arith, g))
        | inr ((s, role), g) ↦
            let i = new_invite id token expires space_id user_id r in
            let allowed : not_owner r ≡ true = ground (arith, g) in
            let written : db' ≡ add_invite i db = ground (arith, g) in
            rw written (record {
              same_vault = unfold add_invite in h.same_vault;
              members = unfold add_invite in h.members;
              invites =
                  unfold add_invite new_invite in
                  All-save invite_key (λ (x : SpaceInvite). role_or_viewer x.role ≢ owner) i
                    db.invites (granted_below_owner r allowed) h.invites;
              items = unfold add_invite in h.items;
            })
      ]

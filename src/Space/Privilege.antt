-- ===== src/Space/Privilege.antt =====
-- Ownership and contribution over any sequence of requests to Spaces.
use recall_ai.Base.{
  ℕ, String, Bool, Option, none, some, List, [], ◌≡◌, ◌≢◌, refl, sym, ◌∙◌, arith, ◌==◌, inl, inr,
  Bool-cases, Option-cases, is_some, leb, find_first, All, All-append, All-save, All-find_first,
  All-update_where, Result, ok, err,
}
use recall_ai.Space.Row.{
  SpaceRole, owner, Space, SpaceItem, SpaceMember, SpaceInvite, VaultItem, Db,
}
use recall_ai.Space.Repository.{
  role_or_viewer, role_text, add, get_for_viewer, viewer_of, effective_role, get_live, is_member,
  add_member, invite_key, get_invite_by_hash, has_token,
}
use recall_ai.Space.Service.{
  SpaceError, SpaceChanges, update, delete, add_items, AddResult, attach, remove_item,
  remove_member, create, create_with, unique_slug,
}
use recall_ai.Space.Invites.{
  create_invite, accept_invite, accept_found, accept_live, spend, spent, grant, commit_or_rollback,
}
use recall_ai.Space.Joining.{role_round_trip}
use recall_ai.Space.Reach.{
  IsSound, add-IsSound, attach-IsSound, update-IsSound, delete-IsSound, add_items-IsSound,
  remove_item-IsSound, remove_member-IsSound, create_invite-IsSound,
}

module _ (vault : List VaultItem) where
  spend-IsSound :
      (now user_id : ℕ) (i : SpaceInvite) {db : Db}
      → role_or_viewer i.role ≢ owner
      → IsSound vault db
      → IsSound vault (spend now user_id i db)
  unfolding spend
  spend-IsSound now user_id i {db} below h = record {
    same_vault = h.same_vault;
    members = h.members;
    invites =
        All-save invite_key (λ (x : SpaceInvite). role_or_viewer x.role ≢ owner)
          (spent now user_id i) db.invites below h.invites;
    items = h.items;
  }

  add_member-IsSound :
      (space_id user_id : ℕ) (r : SpaceRole) (by : Option ℕ) {db : Db}
      → r ≢ owner
      → IsSound vault db
      → IsSound vault (add_member space_id user_id r by db)
  unfolding add_member
  add_member-IsSound space_id user_id r by {db} below h =
      let low : role_or_viewer (role_text r) ≢ owner = λ e. below (sym (role_round_trip r) ∙ e) in
      elim (Bool-cases (is_some (find_first (is_member space_id user_id) db.members))) [
        | inl e ↦ rw e (record {
          same_vault = h.same_vault;
          members =
              All-update_where (λ (m : SpaceMember). role_or_viewer m.role ≢ owner) _ _ db.members
                (λ x _ _. low) h.members;
          invites = h.invites;
          items = h.items;
        })
        | inr e ↦ rw e (record {
          same_vault = h.same_vault;
          members =
              All-append (λ (m : SpaceMember). role_or_viewer m.role ≢ owner) db.members _ h.members
                (low, tt);
          invites = h.invites;
          items = h.items;
        })
      ]

  grant-IsSound :
      (user_id : ℕ) (i : SpaceInvite) (s : Space) {db : Db}
      → role_or_viewer i.role ≢ owner
      → IsSound vault db
      → IsSound vault (grant user_id i s db)
  unfolding grant
  grant-IsSound user_id i s below h = elim (Bool-cases (s.user_id == user_id)) [
    | inl e ↦ rw e h
    | inr e ↦
        rw e (add_member-IsSound s.id user_id (role_or_viewer i.role) (some i.created_by) below h)
  ]

  accept_live-IsSound :
      (now user_id : ℕ) (i : SpaceInvite) (o : Option Space) {db : Db}
      → role_or_viewer i.role ≢ owner
      → IsSound vault db
      → IsSound vault (accept_live now user_id i o db).1
  unfolding accept_live
  accept_live-IsSound now user_id i none below h = spend-IsSound now user_id i below h
  accept_live-IsSound now user_id i (some s) below h =
      grant-IsSound user_id i s below (spend-IsSound now user_id i below h)

  accept_found-IsSound :
      (now user_id : ℕ) (i : SpaceInvite) {db : Db}
      → role_or_viewer i.role ≢ owner
      → IsSound vault db
      → IsSound vault (accept_found now user_id (some i) db).1
  unfolding accept_found
  accept_found-IsSound now user_id i {db} below h = elim (Bool-cases (is_some i.accepted_at)) [
    | inl e ↦ rw e h
    | inr e ↦ rw e (elim (Bool-cases (leb i.expires_at now)) [
      | inl u ↦ rw u h
      | inr u ↦ rw u (accept_live-IsSound now user_id i (get_live i.space_id db) below h)
    ])
  ]

  accept-IsSound :
      (now user_id : ℕ) (token_hash : String) {db : Db}
      → IsSound vault db
      → IsSound vault (accept_invite now user_id token_hash db).1
  unfolding accept_invite get_invite_by_hash
  accept-IsSound now user_id token_hash {db} h =
      elim (Option-cases (find_first (has_token token_hash) db.invites)) [
        | inl e ↦ rw (e, accept_found) h
        | inr (i, e) ↦ rw e (
            accept_found-IsSound now user_id i
              (All-find_first (λ (x : SpaceInvite). role_or_viewer x.role ≢ owner)
                (has_token token_hash) db.invites h.invites e)
              h)
      ]

  settle-IsSound :
      {A : Type 0} (db : Db) (out : Result SpaceError A × Db)
      → IsSound vault db
      → IsSound vault out.1
      → IsSound vault (commit_or_rollback db out)
  unfolding commit_or_rollback
  settle-IsSound db (ok a, db') h k = k
  settle-IsSound db (err e, db') h k = h

  create-IsSound :
      (now : ℕ) (draft : Space) (slugified : String) (draws : List String) (ids : List ℕ) (db : Db)
      {s : Space} {r : AddResult} {db' : Db}
      → IsSound vault db
      → create now draft slugified draws ids db ≡ some (s, r, db')
      → IsSound vault db'
  unfolding create create_with
  create-IsSound now draft slugified draws ids db {s} {r} {db'} h e =
      elim (Option-cases (unique_slug db slugified draws)) [
        | inl g ↦ absurd (ground (arith, g))
        | inr (slug, g) ↦
            let row : Space = record draft { slug = slug } in
            let written : db' ≡ (attach now draft.id draft.user_id ids (add row db)).1 =
              ground (arith, g) in
            rw written
              (attach-IsSound vault now draft.id draft.user_id ids (add-IsSound vault row h))
      ]

-- One request that changes the tables, from before it to after its commit or rollback.
pub data Request : Db → Db → Type 0 where
  creates :
      (now : ℕ) (draft : Space) (slugified : String) (draws : List String) (ids : List ℕ)
      (s : Space) (r : AddResult) (db db' : Db)
      → create now draft slugified draws ids db ≡ some (s, r, db')
      → Request db db'
  updates :
      (now : ℕ) (c : SpaceChanges) (space_id user_id : ℕ) (db db' : Db)
      → update now c space_id user_id db ≡ ok db'
      → Request db db'
  deletes :
      (now space_id user_id : ℕ) (db db' : Db)
      → delete now space_id user_id db ≡ ok db'
      → Request db db'
  adds :
      (now space_id user_id : ℕ) (ids : List ℕ) (r : AddResult) (db db' : Db)
      → add_items now space_id user_id ids db ≡ ok (r, db')
      → Request db db'
  removes :
      (space_id user_id item_id : ℕ) (there : Bool) (db db' : Db)
      → remove_item space_id user_id item_id db ≡ ok (there, db')
      → Request db db'
  expels :
      (space_id user_id member_id : ℕ) (there : Bool) (db db' : Db)
      → remove_member space_id user_id member_id db ≡ ok (there, db')
      → Request db db'
  invites :
      (id expires space_id user_id : ℕ) (token : String) (r : SpaceRole) (db db' : Db)
      → create_invite id token expires space_id user_id r db ≡ ok db'
      → Request db db'
  accepts :
      (now user_id : ℕ) (token_hash : String) (db : Db)
      → Request db (commit_or_rollback db (accept_invite now user_id token_hash db))

-- From tables with no Space, so with no row of the other three either, over one vault.
pub data Reaches (vault : List VaultItem) : Db → Type 0 where
  fresh :
      Reaches vault (record { spaces = []; items = []; members = []; invites = []; vault = vault })
  then_request : {db db' : Db} → Reaches vault db → Request db db' → Reaches vault db'

Request-IsSound :
    {vault : List VaultItem} {db db' : Db} → Request db db' → IsSound vault db → IsSound vault db'
Request-IsSound {vault} (creates now draft slugified draws ids s r db db' e) h =
    create-IsSound vault now draft slugified draws ids db h e
Request-IsSound {vault} (updates now c space_id user_id db db' e) h =
    update-IsSound vault now c space_id user_id db h e
Request-IsSound {vault} (deletes now space_id user_id db db' e) h =
    delete-IsSound vault now space_id user_id db h e
Request-IsSound {vault} (adds now space_id user_id ids r db db' e) h =
    add_items-IsSound vault now space_id user_id ids db h e
Request-IsSound {vault} (removes space_id user_id item_id there db db' e) h =
    remove_item-IsSound vault space_id user_id item_id db h e
Request-IsSound {vault} (expels space_id user_id member_id there db db' e) h =
    remove_member-IsSound vault space_id user_id member_id db h e
Request-IsSound {vault} (invites id expires space_id user_id token r db db' e) h =
    create_invite-IsSound vault id expires space_id user_id token r db h e
Request-IsSound {vault} (accepts now user_id token_hash db) h =
    settle-IsSound vault db (accept_invite now user_id token_hash db) h
      (accept-IsSound vault now user_id token_hash h)

Reaches-IsSound : {vault : List VaultItem} {db : Db} → Reaches vault db → IsSound vault db
Reaches-IsSound fresh = record { same_vault = refl; members = tt; invites = tt; items = tt }
Reaches-IsSound (then_request r q) = Request-IsSound q (Reaches-IsSound r)

owner_of_effective :
    (user_id : ℕ) (s : Space) (o : Option SpaceMember) {s' : Space}
    → ((m : SpaceMember) → o ≡ some m → role_or_viewer m.role ≢ owner)
    → effective_role user_id s o ≡ some (s', owner)
    → s'.user_id ≡ user_id
unfolding effective_role
owner_of_effective user_id s none below e = ground arith
owner_of_effective user_id s (some m) below e = ground (arith, below m refl)

owner_of_viewer :
    (space_id user_id : ℕ) (o : Option Space) (db : Db) {s : Space}
    → All (λ (m : SpaceMember). role_or_viewer m.role ≢ owner) db.members
    → viewer_of space_id user_id o db ≡ some (s, owner)
    → s.user_id ≡ user_id
unfolding viewer_of
owner_of_viewer space_id user_id none db below e = absurd (cc)
owner_of_viewer space_id user_id (some s) db below e =
    owner_of_effective user_id s (find_first (is_member space_id user_id) db.members)
      (λ m found. All-find_first _ (is_member space_id user_id) db.members below found) e

-- Whatever was requested, the owner role is had by no one but the user in the Space's own
-- `user_id`: no invite, membership or later request makes anybody else an owner.
pub owner_is_creator :
    {vault : List VaultItem} {db : Db} (space_id user_id : ℕ) {s : Space}
    → Reaches vault db
    → get_for_viewer space_id user_id db ≡ some (s, owner)
    → s.user_id ≡ user_id
unfolding get_for_viewer
owner_is_creator {vault} {db} space_id user_id r e =
    owner_of_viewer space_id user_id (get_live space_id db) db (Reaches-IsSound r).members e

-- Whatever was requested, every memory in every Space was put there by the person whose vault it is
-- in.
pub items_are_contributed :
    {vault : List VaultItem} {db : Db}
    → Reaches vault db
    → All
        (λ (r : SpaceItem).
          (v : VaultItem) × (find_first (λ (i : VaultItem). i.id == r.vault_item_id) vault ≡ some v)
          × (v.user_id ≡ r.added_by))
        db.items
items_are_contributed r = (Reaches-IsSound r).items

-- ===== src/Space/Access.antt =====
-- Who may do what in a Space.
use recall_ai.Base.{
  ◌≢◌, ℕ, String, Bool, true, false, not, Option, none, some, List, ◌≡◌, refl, ap, ◌∙◌, arith, ◌==◌,
  ◌&&◌, ◌||◌, is_some, if◌then◌else◌, All, find_first-none_iff, inl, inr, Option-cases, find_first,
  Result, ok, err, find_first_holds, find_first-delete_where_self, Distinct, find_first-save_gone,
}
use recall_ai.Space.Row.{SpaceRole, viewer, editor, owner, Space, Db}
use recall_ai.Space.Repository.{
  get_for_viewer, get_live, viewer_of, effective_role, is_member, is_live_space, space_key, add,
  remove_member as delete_member,
}
use recall_ai.Space.Service.{
  not_found, found_or_raise, SpaceChanges, update, delete, add_items, remove_item, remove_member,
  summary,
}
use recall_ai.Space.Invites.{create_invite, not_owner}

abbrev pub is_ok {ℓ κ} : {E : Type ℓ} {A : Type κ} → Result E A → Bool
is_ok (ok a) = true
is_ok (err e) = false

-- The viewer check gives the live Space of the id.
pub viewer-live :
    (space_id user_id : ℕ) (db : Db) {s : Space} {role : SpaceRole}
    → get_for_viewer space_id user_id db ≡ some (s, role)
    → get_live space_id db ≡ some s
unfolding get_for_viewer
viewer-live space_id user_id db {s} {role} h = elim (Option-cases (get_live space_id db)) [
  | inl e ↦ absurd (cc (admitted none e))
  | inr (o, e) ↦
      let admitted : viewer_of space_id user_id (some o) db ≡ some (s, role) = rw e at h in
      e ∙ ap some (same_space o admitted)
]
  where
    admitted :
        (o : Option Space)
        → get_live space_id db ≡ o
        → viewer_of space_id user_id o db ≡ some (s, role)
    admitted o e = rw e at h

    same_space : (o : Space) → viewer_of space_id user_id (some o) db ≡ some (s, role) → o ≡ s
    same_space o k = ground arith

pub unseen_of_no_row :
    (space_id user_id : ℕ) (db : Db) {s : Space}
    → get_live space_id db ≡ some s
    → (user_id == s.user_id) ≡ false
    → find_first (is_member space_id user_id) db.members ≡ none
    → get_for_viewer space_id user_id db ≡ none
unfolding get_for_viewer
unseen_of_no_row space_id user_id db {s} live other gone =
    let stranger : (s.user_id == user_id) ≡ false = ground arith in
    rw (live, viewer_of) (rw (gone, effective_role) (rw stranger refl))

abbrev pub is_owner : SpaceRole → Bool
is_owner owner = true
is_owner _ = false

-- Who may put memories in and take them out.
abbrev pub is_curator : SpaceRole → Bool
is_curator viewer = false
is_curator _ = true

not_owner_lem : (r : SpaceRole) → not_owner r ≡ not (is_owner r)
not_owner_lem viewer = refl
not_owner_lem editor = refl
not_owner_lem owner = refl

-- Who neither owns a live Space of that id nor has a member row in it is not admitted.
unseen_of_outsider :
    (space_id user_id : ℕ) (db : Db)
    → ((s : Space) → get_live space_id db ≡ some s → s.user_id ≢ user_id)
    → All (λ m. (m.space_id == space_id && m.user_id == user_id) ≡ false) db.members
    → get_for_viewer space_id user_id db ≡ none
unseen_of_outsider space_id user_id db other absent = elim (Option-cases (get_live space_id db)) [
  | inl e ↦ unfold get_for_viewer in rw (e, viewer_of) refl
  | inr (s, e) ↦
      let apart : s.user_id ≢ user_id = other s e in
      unseen_of_no_row space_id user_id db e (ground (arith, apart))
        ((find_first-none_iff (is_member space_id user_id) db.members).1 absent)
]

module _ (now space_id user_id : ℕ) (db : Db) where
  -- A person who neither owns a live Space of that id nor has a row among its members gets the same
  -- "not found" when they read its summary, update or delete it, add or remove an item, remove a
  -- member or create an invite, and nothing is written.
  pub outsider_finds_nothing :
      (c : SpaceChanges) (ids : List ℕ) (item member : ℕ) (invite expires : ℕ) (h : String)
      (r : SpaceRole)
      → ((s : Space) → get_live space_id db ≡ some s → s.user_id ≢ user_id)
      → All (λ m. (m.space_id == space_id && m.user_id == user_id) ≡ false) db.members
      → (summary space_id user_id db ≡ err not_found)
        × (update now c space_id user_id db ≡ err not_found)
        × (delete now space_id user_id db ≡ err not_found)
        × (add_items now space_id user_id ids db ≡ err not_found)
        × (remove_item space_id user_id item db ≡ err not_found)
        × (remove_member space_id user_id member db ≡ err not_found)
        × (create_invite invite h expires space_id user_id r db ≡ err not_found)
  unfolding summary update delete add_items remove_item remove_member create_invite
  outsider_finds_nothing c ids item member invite expires h r other absent =
      rw (unseen_of_outsider space_id user_id db other absent, found_or_raise)
        (refl, refl, refl, refl, refl, refl, refl)

  -- For a caller who is admitted with a role, each writing operation goes through exactly when the
  -- role allows it: an editor or the owner curates and changes what is not the visibility, only the
  -- owner deletes, invites and changes visibility, ownership is never granted by invite, anyone may
  -- leave, and the owner is never removed.
  pub permissions :
      (s : Space) (role : SpaceRole) (c : SpaceChanges) (ids : List ℕ) (item member : ℕ)
      (invite expires : ℕ) (h : String) (r : SpaceRole)
      → get_for_viewer space_id user_id db ≡ some (s, role)
      → (is_ok (update now c space_id user_id db)
          ≡ (if is_some c.visibility then is_owner role else is_curator role))
        × (is_ok (delete now space_id user_id db) ≡ is_owner role)
        × (is_ok (add_items now space_id user_id ids db) ≡ is_curator role)
        × (is_ok (remove_item space_id user_id item db) ≡ is_curator role)
        × (is_ok (create_invite invite h expires space_id user_id r db)
            ≡ (is_owner role && not (is_owner r)))
        × (is_ok (remove_member space_id user_id member db)
            ≡ ((member == user_id || is_owner role) && not (member == s.user_id)))
  unfolding update delete add_items remove_item create_invite remove_member
  permissions s viewer c ids item member invite expires h r e = ground (arith, e, not_owner_lem r)
  permissions s editor c ids item member invite expires h r e = ground (arith, e, not_owner_lem r)
  permissions s owner c ids item member invite expires h r e = ground (arith, e, not_owner_lem r)

removed :
    (space_id user_id member_id : ℕ) (db : Db) {db' : Db} {there : Bool}
    → remove_member space_id user_id member_id db ≡ ok (there, db')
    → (s : Space) × (get_live space_id db ≡ some s)
      × ((member_id == s.user_id) ≡ false)
      × (db' ≡ (delete_member space_id member_id db).1)
unfolding remove_member
removed space_id user_id member_id db {db'} {there} h =
    elim (Option-cases (get_for_viewer space_id user_id db)) [
      | inl e ↦ absurd (ground (arith, e))
      | inr ((s, role), e) ↦
          (s, viewer-live space_id user_id db e, ground (arith, e), ground (arith, e))
    ]

-- A member whom someone removes can no longer see the Space.
pub remove_member-unseen :
    (space_id user_id member_id : ℕ) (db db' : Db) (there : Bool)
    → remove_member space_id user_id member_id db ≡ ok (there, db')
    → get_for_viewer space_id member_id db' ≡ none
remove_member-unseen space_id user_id member_id db db' there h =
    let (s, live, other, e) = removed space_id user_id member_id db h in
    rw e (
      unseen_of_no_row space_id member_id (delete_member space_id member_id db).1 {s = s}
        (unfold delete_member get_live in live) other
        (unfold delete_member in
          find_first-delete_where_self (is_member space_id member_id) db.members))

pub live_named :
    (space_id : ℕ) (db : Db) {s : Space} → get_live space_id db ≡ some s → s.id ≡ space_id
unfolding get_live
live_named space_id db {s} live =
    let holds : is_live_space space_id s ≡ true =
      find_first_holds (is_live_space space_id) db.spaces live in
    ground arith

unseen_of_deleted :
    (now space_id other : ℕ) (db : Db) (s : Space)
    → Distinct space_key db.spaces
    → s.id ≡ space_id
    → get_for_viewer space_id other (add (record s { deleted_at = some now }) db) ≡ none
unfolding get_for_viewer add
unseen_of_deleted now space_id other db s distinct named =
    rw
      (
        find_first-save_gone space_key (is_live_space space_id) (record s { deleted_at = some now })
            db.spaces distinct (λ x h. ground arith) (ground arith),
        viewer_of,
      )
      refl

-- After a Space is deleted nobody can see it, its owner included.
pub delete-unseen :
    (now space_id user_id other : ℕ) (db db' : Db)
    → Distinct space_key db.spaces
    → delete now space_id user_id db ≡ ok db'
    → get_for_viewer space_id other db' ≡ none
unfolding delete
delete-unseen now space_id user_id other db db' distinct h =
    elim (Option-cases (get_for_viewer space_id user_id db)) [
      | inl e ↦ absurd (ground (arith, e))
      | inr ((s, role), e) ↦
          let named = live_named space_id db (viewer-live space_id user_id db e) in
          let written : db' ≡ add (record s { deleted_at = some now }) db = ground (arith, e) in
          rw written (unseen_of_deleted now space_id other db s distinct named)
    ]

-- ===== src/Space/Joining.antt =====
-- Accepting an invite: what it grants, that it is spent once, and what is left of it when the Space
-- is gone.
use recall_ai.Base.{
  ℕ, ◌<◌, String, true, false, Option, none, some, ◌≡◌, refl, ap, ◌∙◌, arith, ◌==◌, leb, inl, inr,
  Bool-cases, Option-cases, is_some, if◌then◌else◌, find_first, Distinct, find_first-save,
  find_first-update_where, find_first-append_missing, find_first_holds, Result, ok, err,
}
use recall_ai.Space.Row.{SpaceRole, viewer, editor, owner, Space, SpaceMember, SpaceInvite, Db}
use recall_ai.Space.Repository.{
  role_or_viewer, role_text, get_for_viewer, viewer_of, effective_role, get_live, is_live_space,
  is_member, add_member, get_invite_by_hash, has_token, invite_key,
}
use recall_ai.Space.Service.{SpaceError, not_found}
use recall_ai.Space.Access.{live_named}
use recall_ai.Space.Invites.{
  spent, spend, grant, accept_live, accept_found, accept_invite, commit_or_rollback,
}

pub role_round_trip : (r : SpaceRole) → role_or_viewer (role_text r) ≡ r
unfolding role_or_viewer role_text
role_round_trip viewer = refl
role_round_trip editor = refl
role_round_trip owner = refl

viewer_of_owner :
    (space_id user_id : ℕ) (d : Db) (s : Space)
    → get_live space_id d ≡ some s
    → (s.user_id == user_id) ≡ true
    → get_for_viewer space_id user_id d ≡ some (s, owner)
unfolding get_for_viewer
viewer_of_owner space_id user_id d s live mine =
    elim (Option-cases (find_first (is_member space_id user_id) d.members)) [
      | inl e ↦ rw (live, viewer_of) (rw (e, effective_role) (rw mine refl))
      | inr (m, e) ↦ rw (live, viewer_of) (rw (e, effective_role) (rw mine refl))
    ]

viewer_of_member :
    (space_id user_id : ℕ) (d : Db) (s : Space) {m : SpaceMember}
    → get_live space_id d ≡ some s
    → (s.user_id == user_id) ≡ false
    → find_first (is_member space_id user_id) d.members ≡ some m
    → get_for_viewer space_id user_id d ≡ some (s, role_or_viewer m.role)
unfolding get_for_viewer
viewer_of_member space_id user_id d s live theirs e =
    rw (live, viewer_of) (rw (e, effective_role) (rw theirs refl))

member_added :
    (space_id user_id : ℕ) (role : SpaceRole) (by : Option ℕ) (d : Db)
    → (m : SpaceMember) × (find_first
          (is_member space_id user_id)
          (add_member space_id user_id role by d).members
        ≡ some m)
      × (m.role ≡ role_text role)
unfolding add_member
member_added space_id user_id role by d =
    let mine = is_member space_id user_id in
    let rewrite =
      λ (m : SpaceMember). let r : SpaceMember = record m { role = role_text role } in r in
    elim (Option-cases (find_first mine d.members)) [
      | inl e ↦
          let r : SpaceMember = record {
            space_id = space_id;
            user_id = user_id;
            role = role_text role;
            invited_by = by;
          } in
          (r, rw e (find_first-append_missing mine d.members r e (ground arith)), refl)
      | inr (o, e) ↦
          let held : mine o ≡ true = find_first_holds mine d.members e in
          (
            rewrite o,
            rw e (find_first-update_where mine mine rewrite d.members (λ x. refl) e ∙ rw held refl),
            refl,
          )
    ]

live-add_member :
    (n space_id user_id : ℕ) (role : SpaceRole) (by : Option ℕ) (d : Db)
    → get_live n (add_member space_id user_id role by d) ≡ get_live n d
unfolding add_member get_live
live-add_member n space_id user_id role by d =
    elim (Bool-cases (is_some (find_first (is_member space_id user_id) d.members))) [
      | inl e ↦ rw e refl
      | inr e ↦ rw e refl
    ]

-- What `grant` lets the accepting user see.
viewer-grant :
    (user_id : ℕ) (i : SpaceInvite) (s : Space) (d : Db)
    → get_live s.id d ≡ some s
    → get_for_viewer s.id user_id (grant user_id i s d)
      ≡ some (s, if s.user_id == user_id then owner else role_or_viewer i.role)
unfolding grant
viewer-grant user_id i s d live = elim (Bool-cases (s.user_id == user_id)) [
  | inl mine ↦ rw mine (viewer_of_owner s.id user_id d s live mine)
  | inr theirs ↦
      let role = role_or_viewer i.role in
      let d' = add_member s.id user_id role (some i.created_by) d in
      let (m, e, named) = member_added s.id user_id role (some i.created_by) d in
      rw theirs (
        viewer_of_member s.id user_id d' s
          (live-add_member s.id s.id user_id role (some i.created_by) d ∙ live) theirs e
        ∙ ap (λ r. some (s, r)) (ap role_or_viewer named ∙ role_round_trip role))
]

-- The invite can be accepted at this time.
pub record IsOpen (now : ℕ) (h : String) (db : Db) (i : SpaceInvite) : Type 0 where
  pub presented : get_invite_by_hash h db ≡ some i
  pub unspent : is_some i.accepted_at ≡ false
  pub unexpired : now < i.expires_at

module _ (now user_id : ℕ) (h : String) (db : Db) (i : SpaceInvite)
    (open_invite : IsOpen now h db i) where
  accept_open :
      (o : Option Space)
      → get_live i.space_id db ≡ o
      → accept_invite now user_id h db ≡ accept_live now user_id i o db
  unfolding accept_invite
  accept_open o e =
      let young : leb i.expires_at now ≡ false = ground (arith, open_invite.unexpired) in
      rw (open_invite.presented, accept_found) (rw (open_invite.unspent, young, e) refl)

  spent_presented :
      Distinct invite_key db.invites
      → get_invite_by_hash h (spend now user_id i db) ≡ some (spent now user_id i)
  unfolding spend get_invite_by_hash
  spent_presented distinct =
      find_first-save invite_key (has_token h) (spent now user_id i) db.invites distinct
        (open_invite.presented) refl
        (find_first_holds (has_token h) db.invites (open_invite.presented))

  -- The request that accepts an invite to a Space deleted in the meantime marks the invite as spent
  -- and raises; the rollback at the request's end then restores the database, so the invite is
  -- still unspent, and is accepted if the Space's row is restored before it expires.
  pub deleted_space_keeps_token :
      Distinct invite_key db.invites
      → get_live i.space_id db ≡ none
      → let out = accept_invite now user_id h db in
        (out.0 ≡ err not_found)
        × (get_invite_by_hash h out.1 ≡ some (spent now user_id i))
        × (commit_or_rollback db out ≡ db)
        × (get_invite_by_hash h (commit_or_rollback db out) ≡ some i)
  deleted_space_keeps_token distinct gone = rw (accept_open none gone) (
      unfold accept_live commit_or_rollback in
      (refl, spent_presented distinct, refl, open_invite.presented))

module _ (now user_id : ℕ) (h : String) (db : Db) (i : SpaceInvite) (s : Space)
    (open_invite : IsOpen now h db i) (live : get_live i.space_id db ≡ some s)
    (distinct : Distinct invite_key db.invites) where
  abbrev joined : Db
  joined = (accept_invite now user_id h db).1

  joined-eq-granted :
      accept_invite now user_id h db ≡ (ok s, grant user_id i s (spend now user_id i db))
  joined-eq-granted =
      accept_open now user_id h db i open_invite (some s) live ∙ unfold accept_live in refl

  invites-grant : (d : Db) → (grant user_id i s d).invites ≡ d.invites
  unfolding grant
  invites-grant d = ground arith

  joined-spent : get_invite_by_hash h joined ≡ some (spent now user_id i)
  unfolding get_invite_by_hash
  joined-spent =
      ap (λ (o : Result SpaceError Space × Db). find_first (has_token h) o.1.invites)
        joined-eq-granted
      ∙ ap (find_first (has_token h)) (invites-grant (spend now user_id i db))
      ∙ spent_presented now user_id h db i open_invite distinct

  -- An open invite to a live Space is good once: after it was accepted, where invite ids are distinct, every later presentation, by anyone, is refused
  -- like an unknown token and changes nothing.
  pub accept_once : (later other : ℕ) → accept_invite later other h joined ≡ (err not_found, joined)
  accept_once later other = unfold accept_invite in rw (joined-spent, accept_found) refl

  -- Accepting an open invite to a live Space lets the person in: the viewer check then gives the Space's owner their own role, and
  -- anybody else the role that the invite names, also where they had another one before.
  pub accept_grants :
      get_for_viewer s.id user_id joined
      ≡ some (s, if s.user_id == user_id then owner else role_or_viewer i.role)
  accept_grants =
      let named : s.id ≡ i.space_id = live_named i.space_id db live in
      let there : get_live s.id (spend now user_id i db) ≡ some s =
        unfold spend get_live in
        ap (λ (n : ℕ). find_first (is_live_space n) db.spaces) named ∙ live in
      ap (λ (o : Result SpaceError Space × Db). get_for_viewer s.id user_id o.1) joined-eq-granted
      ∙ viewer-grant user_id i s (spend now user_id i db) there

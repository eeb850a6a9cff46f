-- ===== src/Space/Invites.antt =====
-- The sharing operations of app/services/space_service.py. `accept_invite` writes before it can
-- raise, so it returns the database beside its result; the request boundary of
-- app/db/session.py (`get_session`) then keeps or drops what was written.
use recall_ai.Base.{
  ℕ, String, Bool, true, false, Option, none, some, ◌==◌, leb, is_some, if◌then◌else◌, save, Result,
  ok, err, ◌>>=◌, ◌>>◌, guard,
}
use recall_ai.Space.Row.{SpaceRole, owner, Space, SpaceInvite, Db}
use recall_ai.Space.Repository.{
  role_or_viewer, role_text, get_live, add_member, add_invite, invite_key, get_invite_by_hash,
}
use recall_ai.Space.Service.{SpaceError, not_found, forbidden, require, viewable}

abbrev pub not_owner : SpaceRole → Bool
not_owner owner = false
not_owner _ = true

-- The row of `create_invite`. Its id, its digest and its expiry come from the caller's draw.
unfoldable pub new_invite : ℕ → String → ℕ → ℕ → ℕ → SpaceRole → SpaceInvite
unfolding role_text
new_invite id token_hash expires_at space_id user_id role = record {
  id = id;
  space_id = space_id;
  role = role_text role;
  token_hash = token_hash;
  created_by = user_id;
  expires_at = expires_at;
  accepted_at = none;
  accepted_by = none;
}

unfoldable pub create_invite : ℕ → String → ℕ → ℕ → ℕ → SpaceRole → Db → Result SpaceError Db
unfolding viewable require new_invite add_invite
create_invite id token_hash expires_at space_id user_id role db = do
  (s, actor_role) ← viewable space_id user_id db
  require actor_role owner
  guard (not_owner role) forbidden
  ok (add_invite (new_invite id token_hash expires_at space_id user_id role) db)

abbrev pub spent : ℕ → ℕ → SpaceInvite → SpaceInvite
spent now user_id i = record i { accepted_at = some now; accepted_by = some user_id }

-- The invite is a tracked row: assigning to its columns writes them at the flush.
unfoldable pub spend : ℕ → ℕ → SpaceInvite → Db → Db
spend now user_id i db = record db { invites = save invite_key (spent now user_id i) db.invites }

unfoldable pub grant : ℕ → SpaceInvite → Space → Db → Db
unfolding add_member
grant user_id i s db =
    if s.user_id == user_id
    then db
    else add_member s.id user_id (role_or_viewer i.role) (some i.created_by) db

unfoldable pub accept_live : ℕ → ℕ → SpaceInvite → Option Space → Db → Result SpaceError Space × Db
unfolding spend grant
accept_live now user_id i none db = (err not_found, spend now user_id i db)
accept_live now user_id i (some s) db = (ok s, grant user_id i s (spend now user_id i db))

unfoldable pub accept_found : ℕ → ℕ → Option SpaceInvite → Db → Result SpaceError Space × Db
unfolding accept_live get_live
accept_found now user_id none db = (err not_found, db)
accept_found now user_id (some i) db =
    if is_some i.accepted_at
    then (err not_found, db)
    else if leb i.expires_at now
    then (err not_found, db)
    else accept_live now user_id i (get_live i.space_id db) db

-- `token_hash` is the digest of the presented token.
unfoldable pub accept_invite : ℕ → ℕ → String → Db → Result SpaceError Space × Db
unfolding accept_found get_invite_by_hash
accept_invite now user_id token_hash db =
    accept_found now user_id (get_invite_by_hash token_hash db) db

-- `get_session`: commit when the route returns, roll back when an exception leaves it.
unfoldable pub commit_or_rollback {ℓ} : {A : Type ℓ} → Db → Result SpaceError A × Db → Db
commit_or_rollback db (ok a, db') = db'
commit_or_rollback db (err e, db') = db

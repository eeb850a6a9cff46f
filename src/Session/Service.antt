-- ===== src/Session/Service.antt =====
-- app/services/session_service.py, with the token functions of app/core/security.py. An operation
-- takes the table and returns its result and the new table: what was written before a raise stays
-- written, since the route catches `SessionError` and the request then commits.
use recall_ai.Base.{
  ℕ, ◌+◌, ◌*◌, String, Bool, true, false, Option, none, some, List, str_eq, leb, ◌==◌, is_some,
  text_is, or_else, if◌then◌else◌, find_first, Result, ok, err, take_chars,
}
use recall_ai.Session.Row.{UserSession, User, Config, Crypto, Draw, minutes, days}
use recall_ai.Session.Repository.{
  get_by_hash, add, list_active_for_user, revoke_family, revoke_all_for_user, get_user,
}

-- The reason of a `SessionError`.
pub data Refusal : Type 0 where
  unknown_token revoked expired absolute_expiry user_gone : Refusal

pub record IssuedSession : Type 0 where
  pub access_token : String
  pub refresh_token : String
  pub session_id : ℕ
  pub access_expires_in : ℕ
  pub refresh_expires_at : ℕ

abbrev pub max_user_agent : ℕ
max_user_agent = 256

-- `user_agent[:_MAX_USER_AGENT] if user_agent else None`.
unfoldable pub clip_agent : Option String → Option String
clip_agent none = none
clip_agent (some s) = if str_eq s "" then none else some (take_chars max_user_agent s)

-- What the service is built with.
pub record Service : Type 0 where
  pub crypto : Crypto
  pub config : Config
  pub users : List User

unfoldable pub hash_refresh_token : Service → String → String
hash_refresh_token s raw = s.crypto.sha256_hex raw

unfoldable pub create_access_token : Service → Draw → String → String → String
create_access_token s d subject session_id = s.crypto.jwt_encode (record {
  sub = subject;
  sid = session_id;
  typ = "access";
  jti = d.jti;
  iat = d.token_now;
  exp = d.token_now + minutes s.config.access_token_expire_minutes;
})

abbrev pub refresh_deadline : Service → Draw → ℕ
refresh_deadline s d = d.issue_now + days s.config.refresh_token_expire_days

-- The row that `_issue` inserts.
unfoldable pub new_row : Service → Draw → ℕ → ℕ → ℕ → Option String → Option String → UserSession
unfolding hash_refresh_token clip_agent
new_row s d user_id family_id family_started_at user_agent ip_address = record {
  id = d.row_id;
  user_id = user_id;
  family_id = family_id;
  token_hash = hash_refresh_token s d.raw;
  expires_at = refresh_deadline s d;
  family_started_at = family_started_at;
  revoked_at = none;
  revoked_reason = none;
  replaced_by_id = none;
  user_agent = clip_agent user_agent;
  ip_address = ip_address;
  last_used_at = d.issue_now;
  created_at = d.issue_now;
}

-- What `_issue` returns for a row of `user_id`.
unfoldable pub issued_for : Service → Draw → ℕ → IssuedSession
issued_for s d user_id = record {
  access_token = create_access_token s d (s.crypto.uuid_text user_id) (s.crypto.uuid_text d.row_id);
  refresh_token = d.raw;
  session_id = d.row_id;
  access_expires_in = s.config.access_token_expire_minutes * 60;
  refresh_expires_at = refresh_deadline s d;
}

unfoldable pub issue :
    Service
    → Draw
    → ℕ
    → ℕ
    → ℕ
    → Option String
    → Option String
    → List UserSession
    → IssuedSession × List UserSession
unfolding new_row issued_for add
issue s d user_id family_id family_started_at user_agent ip_address t = (
  issued_for s d user_id,
  add (new_row s d user_id family_id family_started_at user_agent ip_address) t,
)

unfoldable pub start :
    Service
    → Draw
    → ℕ
    → Option String
    → Option String
    → List UserSession
    → IssuedSession × List UserSession
unfolding issue
start s d user_id user_agent ip_address t =
    issue s d user_id d.family_id d.now user_agent ip_address t

-- The old row as rotation leaves it.
unfoldable pub retire : Draw → UserSession → UserSession
retire d r = record r {
  revoked_at = some d.now;
  revoked_reason = some "rotated";
  replaced_by_id = some d.row_id;
  last_used_at = d.now;
}

abbrev pub absolute_deadline : Service → UserSession → ℕ
absolute_deadline s r = r.family_started_at + days s.config.refresh_token_absolute_days

unfoldable pub rotate :
    Service
    → Draw
    → Option String
    → UserSession
    → List UserSession
    → Result Refusal IssuedSession × List UserSession
unfolding issue retire add
rotate s d ip_address r t =
    let (issued, t') =
      issue s d r.user_id r.family_id r.family_started_at r.user_agent
        (or_else ip_address r.ip_address) t in
    (ok issued, add (retire d r) t')

-- `user is None or user.deleted_at is not None`.
unfoldable pub is_gone : Option User → Bool
is_gone none = true
is_gone (some u) = is_some u.deleted_at

abbrev refusing : Refusal → List UserSession → Result Refusal IssuedSession × List UserSession
refusing reason t = (err reason, t)

-- The guards of `refresh`, in their order, for the row that the digest found.
unfoldable pub refresh_row :
    Service
    → Draw
    → Option String
    → UserSession
    → List UserSession
    → Result Refusal IssuedSession × List UserSession
unfolding rotate is_gone get_user revoke_family
refresh_row s d ip_address r t =
    if is_some r.revoked_at
    then refusing revoked (
        if text_is "rotated" r.revoked_reason
        then (revoke_family r.family_id "reuse_detected" d.revoke_now t).1
        else t)
    else if leb r.expires_at d.now
    then refusing expired t
    else if leb (absolute_deadline s r) d.now
    then refusing absolute_expiry (revoke_family r.family_id "absolute_expiry" d.revoke_now t).1
    else if is_gone (get_user r.user_id s.users)
    then refusing user_gone (revoke_family r.family_id "user_gone" d.revoke_now t).1
    else rotate s d ip_address r t

unfoldable pub refresh_found :
    Service
    → Draw
    → Option String
    → Option UserSession
    → List UserSession
    → Result Refusal IssuedSession × List UserSession
unfolding refresh_row
refresh_found s d ip_address none t = refusing unknown_token t
refresh_found s d ip_address (some r) t = refresh_row s d ip_address r t

-- `user_agent` is a parameter of the source's `refresh` that its body does not read.
unfoldable pub refresh :
    Service
    → Draw
    → String
    → Option String
    → List UserSession
    → Result Refusal IssuedSession × List UserSession
unfolding refresh_found get_by_hash hash_refresh_token
refresh s d raw ip_address t =
    refresh_found s d ip_address (get_by_hash (hash_refresh_token s raw) t) t

unfoldable pub revoke_found :
    Draw → String → Option UserSession → List UserSession → List UserSession
unfolding revoke_family
revoke_found d reason none t = t
revoke_found d reason (some r) t =
    if is_some r.revoked_at then t else (revoke_family r.family_id reason d.revoke_now t).1

unfoldable pub revoke :
    Service → Draw → Option String → String → List UserSession → List UserSession
unfolding revoke_found get_by_hash hash_refresh_token
revoke s d none reason t = t
revoke s d (some raw) reason t =
    if str_eq raw "" then t else revoke_found d reason (get_by_hash (hash_refresh_token s raw) t) t

unfoldable pub revoke_all : Draw → ℕ → String → List UserSession → ℕ × List UserSession
unfolding revoke_all_for_user
revoke_all d user_id reason t = revoke_all_for_user user_id reason d.revoke_now t

unfoldable pub revoke_target :
    Draw → Option UserSession → List UserSession → Bool × List UserSession
unfolding revoke_family
revoke_target d none t = (false, t)
revoke_target d (some r) t = (true, (revoke_family r.family_id "revoked_by_user" d.revoke_now t).1)

-- `d.now` is the clock reading of the listing.
unfoldable pub revoke_one : Draw → ℕ → ℕ → List UserSession → Bool × List UserSession
unfolding revoke_target list_active_for_user
revoke_one d user_id session_id t =
    revoke_target d (find_first (λ r. r.id == session_id) (list_active_for_user user_id d.now t)) t

unfoldable pub list_sessions : Draw → ℕ → List UserSession → List UserSession
unfolding list_active_for_user
list_sessions d user_id t = list_active_for_user user_id d.now t

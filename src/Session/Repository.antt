-- ===== src/Session/Repository.antt =====
-- app/repositories/user_session.py, and `get` of app/repositories/user.py.
use recall_ai.Base.{
  ℕ, String, Bool, Option, some, List, ◌&&◌, str_eq, ltb, ◌==◌, is_none, find_first, select_where,
  update_where, delete_where, count_where, save, order_desc,
}
use recall_ai.Session.Row.{UserSession, User}

abbrev pub row_key : UserSession → ℕ
row_key r = r.id

-- `revoked_at IS NULL`.
abbrev pub unrevoked : UserSession → Bool
unrevoked r = is_none r.revoked_at

abbrev pub has_hash : String → UserSession → Bool
has_hash h r = str_eq r.token_hash h

unfoldable pub get_by_hash : String → List UserSession → Option UserSession
get_by_hash h t = find_first (has_hash h) t

unfoldable pub add : UserSession → List UserSession → List UserSession
add r t = save row_key r t

abbrev pub is_active_for : ℕ → ℕ → UserSession → Bool
is_active_for user_id now r = r.user_id == user_id && unrevoked r && ltb now r.expires_at

unfoldable pub list_active_for_user : ℕ → ℕ → List UserSession → List UserSession
list_active_for_user user_id now t =
    order_desc (λ r. r.last_used_at) (select_where (is_active_for user_id now) t)

abbrev pub close : ℕ → String → UserSession → UserSession
close now reason r = record r { revoked_at = some now; revoked_reason = some reason }

abbrev pub in_live_family : ℕ → UserSession → Bool
in_live_family family_id r = r.family_id == family_id && unrevoked r

abbrev pub live_of_user : ℕ → UserSession → Bool
live_of_user user_id r = r.user_id == user_id && unrevoked r

-- The rowcount, and the table.
unfoldable pub revoke_family : ℕ → String → ℕ → List UserSession → ℕ × List UserSession
revoke_family family_id reason now t = (
  count_where (in_live_family family_id) t,
  update_where (in_live_family family_id) (close now reason) t,
)

unfoldable pub revoke_all_for_user : ℕ → String → ℕ → List UserSession → ℕ × List UserSession
revoke_all_for_user user_id reason now t =
    (count_where (live_of_user user_id) t, update_where (live_of_user user_id) (close now reason) t)

unfoldable pub delete_expired : ℕ → List UserSession → ℕ × List UserSession
delete_expired before t =
    (count_where (λ r. ltb r.expires_at before) t, delete_where (λ r. ltb r.expires_at before) t)

unfoldable pub get_user : ℕ → List User → Option User
get_user user_id users = find_first (λ u. u.id == user_id) users

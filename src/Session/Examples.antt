-- ===== src/Session/Examples.antt =====
-- Runs of the session service, and its theorems at concrete tables.
use recall_ai.Base.{
  ℕ, ◌+◌, ◌≤◌, String, true, false, none, some, [], ◌∷◌, ◌≡◌, ◌≢◌, ◌↔◌, refl, arith, ok, err, All,
  map, select_where, Fresh, find_first, save, order_desc, eq_iff,
}
use recall_ai.Session.Row.{UserSession, Draw}
use recall_ai.Session.Repository.{row_key, has_hash}
use recall_ai.Session.Service.{
  Service, revoked, unknown_token, start, refresh, revoke, revoke_one, new_row, issued_for,
  hash_refresh_token,
}
use recall_ai.Session.Chain.{Table, IsChained, live_count}
use recall_ai.Session.Outcomes.{IsAdmissible}
use recall_ai.Session.Rotation.{refresh-ok_iff, refresh-replayed}
use recall_ai.Session.Reach.{
  Reaches, empty, step, starts, refreshes, Reaches-IsChained, refresh_fails_closed,
}
use recall_ai.Session.Ownership.{chain_is_fixed}
use recall_ai.Session.Revocation.{revoke_ends_session}

abbrev service : Service
service = record {
  crypto = record { sha256_hex = λ s. s; jwt_encode = λ c. c.jti; uuid_text = λ n. "uuid" };
  config = record {
    refresh_token_expire_days = 7;
    refresh_token_absolute_days = 90;
    access_token_expire_minutes = 15;
  };
  users = record { id = 1; deleted_at = none } ∷ [];
}

abbrev draw : ℕ → ℕ → String → Draw
draw now id raw = record {
  now = now;
  issue_now = now;
  token_now = now;
  revoke_now = now;
  row_id = id;
  family_id = id + 100;
  raw = raw;
  jti = raw;
}

abbrev first : Draw
first = draw 5 10 "first"

abbrev second : Draw
second = draw 6 11 "second"

abbrev third : Draw
third = draw 7 12 "third"

abbrev opened : Table
opened = (start service first 1 none none []).1

abbrev rotated : Table
rotated = (refresh service second "first" none opened).1

opened_reached : Reaches opened
opened_reached = step empty (starts service first 1 none none [] tt tt)

second_is_new : Fresh row_key second.row_id opened
unfolding start save
second_is_new = omega arith

rotated_reached : Reaches rotated
rotated_reached = step opened_reached (refreshes service second "first" none opened second_is_new)

Reaches-IsChained_example : IsChained rotated
Reaches-IsChained_example = Reaches-IsChained rotated_reached

abbrev opened_row : UserSession
opened_row = new_row service first 1 first.family_id 5 none none

first-IsAdmissible : IsAdmissible service second "first" none opened opened_row
unfolding start refresh new_row find_first save
first-IsAdmissible = record {
  presented = refl;
  open_row = refl;
  in_window = omega arith;
  in_chain = omega arith;
  has_user = refl;
}

refresh-ok_iff_example :
    ((refresh service second "first" none opened).0 ≡ ok (issued_for service second 1)) ↔ (
      (r : UserSession) × IsAdmissible service second "first" none opened r
      × (issued_for service second 1 ≡ issued_for service second r.user_id))
refresh-ok_iff_example =
    refresh-ok_iff service second "first" none opened (issued_for service second 1)

refresh-replayed_example :
    ((refresh service third "first" none rotated).0 ≡ err revoked)
    × (live_count opened_row.family_id (refresh service third "first" none rotated).1 ≡ 0)
refresh-replayed_example =
    refresh-replayed service second "first" none opened opened_row
      (Reaches-IsChained opened_reached) second_is_new first-IsAdmissible third none

second_is_unused : All (λ x. has_hash (hash_refresh_token service second.raw) x ≡ false) opened
unfolding start hash_refresh_token save
second_is_unused = (refl, tt)

stranger_is_unknown : (refresh service third "forged" none rotated).0 ≡ err unknown_token
unfolding refresh start find_first save
stranger_is_unknown = refl

refresh_fails_closed_example :
    (map row_key (refresh service third "forged" none rotated).1 ≡ map row_key rotated)
    × ((f : ℕ)
        → live_count f (refresh service third "forged" none rotated).1 ≤ live_count f rotated)
refresh_fails_closed_example =
    refresh_fails_closed service third "forged" none rotated unknown_token stranger_is_unknown

chain_is_fixed_example :
    All
      (λ r.
        All
          (λ x.
            x.family_id ≡ r.family_id
            → (x.user_id ≡ r.user_id) × (x.family_started_at ≡ r.family_started_at))
          rotated)
      rotated
chain_is_fixed_example = chain_is_fixed rotated_reached

second_is_named : ◌≢◌ {A = String} "second" ""
second_is_named = ground (arith, eq_iff "second" "")

revoke_ends_session_example :
    (refresh service third "second" none (revoke service third (some "second") "logout" rotated)).0
    ≢ ok (issued_for service third 1)
revoke_ends_session_example =
    revoke_ends_session service third third "second" "logout" none rotated second_is_named
      (issued_for service third 1)

-- The owner's own device is found and closed; another user's id is not.
revoke_one_answers :
    ((revoke_one third 1 11 rotated).0 ≡ true) × ((revoke_one third 2 11 rotated).0 ≡ false)
unfolding revoke_one refresh start find_first order_desc select_where save
revoke_one_answers = (refl, refl)

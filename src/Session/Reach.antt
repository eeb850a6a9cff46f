-- ===== src/Session/Reach.antt =====
-- The table over any sequence of session operations: which invariants hold of every table that the
-- service can reach.
use recall_ai.Base.{
  ℕ, ◌≤◌, String, Option, none, some, [], ◌≡◌, ◌≢◌, refl, arith, is_some, inl, inr, Bool-cases,
  Result, err, str_eq, All, map, map-update_where, count_where-delete_where, Fresh,
  Distinct-delete_where, count_where,
}
use recall_ai.Session.Row.{UserSession, Draw}
use recall_ai.Session.Repository.{
  row_key, get_by_hash, in_live_family, live_of_user, close, revoke_family, revoke_all_for_user,
  delete_expired,
}
use recall_ai.Session.Service.{
  Service, IssuedSession, Refusal, start, refresh, revoke, revoke_found, revoke_all, revoke_one,
  revoke_target, rotate, hash_refresh_token,
}
use recall_ai.Session.Chain.{
  Table, IsChained, live_count, close_one_live, close-IsChained, revoke_family-IsChained,
  start-IsChained, rotate-IsChained,
}
use recall_ai.Session.Outcomes.{
  Refreshes, nobody, replayed, signed_out, lapsed, outlived, orphaned, rotates, refresh-Refreshes,
}

Refreshes-IsChained :
    (s : Service) (d : Draw) (raw : String) (ip : Option String) (t : Table)
    {out : Result Refusal IssuedSession × Table}
    → Refreshes s d raw ip t out
    → Fresh row_key d.row_id t
    → IsChained t
    → IsChained out.1
Refreshes-IsChained s d raw ip t (nobody p) f h = h
Refreshes-IsChained s d raw ip t (replayed r p u v) f h =
    revoke_family-IsChained r.family_id "reuse_detected" d.revoke_now h
Refreshes-IsChained s d raw ip t (signed_out r p u v) f h = h
Refreshes-IsChained s d raw ip t (lapsed r p u v) f h = h
Refreshes-IsChained s d raw ip t (outlived r p u v) f h =
    revoke_family-IsChained r.family_id "absolute_expiry" d.revoke_now h
Refreshes-IsChained s d raw ip t (orphaned r p u v) f h =
    revoke_family-IsChained r.family_id "user_gone" d.revoke_now h
Refreshes-IsChained s d raw ip t (rotates r a) f h =
    rotate-IsChained s d (hash_refresh_token s raw) ip r t h f a.presented a.open_row

refresh-IsChained :
    (s : Service) (d : Draw) (raw : String) (ip : Option String) {t : Table}
    → Fresh row_key d.row_id t
    → IsChained t
    → IsChained (refresh s d raw ip t).1
refresh-IsChained s d raw ip {t} f h =
    Refreshes-IsChained s d raw ip t (refresh-Refreshes s d raw ip t) f h

revoke_found-IsChained :
    (d : Draw) (reason : String) (found : Option UserSession) {t : Table}
    → IsChained t
    → IsChained (revoke_found d reason found t)
unfolding revoke_found
revoke_found-IsChained d reason none h = h
revoke_found-IsChained d reason (some r) h = elim (Bool-cases (is_some r.revoked_at)) [
  | inl e ↦ rw e h
  | inr e ↦ rw e (revoke_family-IsChained r.family_id reason d.revoke_now h)
]

revoke-IsChained :
    (s : Service) (d : Draw) (raw : Option String) (reason : String) {t : Table}
    → IsChained t
    → IsChained (revoke s d raw reason t)
unfolding revoke
revoke-IsChained s d none reason h = h
revoke-IsChained s d (some raw) reason {t} h = elim (Bool-cases (str_eq raw "")) [
  | inl e ↦ rw e h
  | inr e ↦ rw e (revoke_found-IsChained d reason (get_by_hash (hash_refresh_token s raw) t) h)
]

revoke_target-IsChained :
    (d : Draw) (found : Option UserSession) {t : Table}
    → IsChained t
    → IsChained (revoke_target d found t).1
unfolding revoke_target
revoke_target-IsChained d none h = h
revoke_target-IsChained d (some r) h =
    revoke_family-IsChained r.family_id "revoked_by_user" d.revoke_now h

delete_expired-IsChained :
    (before : ℕ) {t : Table} → IsChained t → IsChained (delete_expired before t).1
unfolding delete_expired
delete_expired-IsChained before {t} h = record {
  distinct = Distinct-delete_where row_key _ t h.distinct;
  one_live = λ f. omega (arith, count_where-delete_where (in_live_family f) _ t, h.one_live f);
}

-- One operation of the service, or the purge of old rows. The random ids are new to the table.
pub data Step : Table → Table → Type 0 where
  starts :
      (s : Service) (d : Draw) (user_id : ℕ) (ua ip : Option String) (t : Table)
      → Fresh row_key d.row_id t
      → All (λ r. r.family_id ≢ d.family_id) t
      → Step t (start s d user_id ua ip t).1
  refreshes :
      (s : Service) (d : Draw) (raw : String) (ip : Option String) (t : Table)
      → Fresh row_key d.row_id t
      → Step t (refresh s d raw ip t).1
  revokes :
      (s : Service) (d : Draw) (raw : Option String) (reason : String) (t : Table)
      → Step t (revoke s d raw reason t)
  revokes_all :
      (d : Draw) (user_id : ℕ) (reason : String) (t : Table)
      → Step t (revoke_all d user_id reason t).1
  revokes_one :
      (d : Draw) (user_id session_id : ℕ) (t : Table) → Step t (revoke_one d user_id session_id t).1
  purges : (before : ℕ) (t : Table) → Step t (delete_expired before t).1

pub data Reaches : Table → Type 0 where
  empty : Reaches []
  step : {t u : Table} → Reaches t → Step t u → Reaches u

Step-IsChained : {t u : Table} → Step t u → IsChained t → IsChained u
unfolding revoke_all revoke_all_for_user revoke_one
Step-IsChained (starts s d user_id ua ip t fresh unused) h =
    start-IsChained s d user_id ua ip fresh unused h
Step-IsChained (refreshes s d raw ip t fresh) h = refresh-IsChained s d raw ip fresh h
Step-IsChained (revokes s d raw reason t) h = revoke-IsChained s d raw reason h
Step-IsChained (revokes_all d user_id reason t) h =
    close-IsChained (live_of_user user_id) d.revoke_now reason h
Step-IsChained (revokes_one d user_id session_id t) h = revoke_target-IsChained d _ h
Step-IsChained (purges before t) h = delete_expired-IsChained before h

empty-IsChained : IsChained []
unfolding count_where
empty-IsChained = record { distinct = tt; one_live = λ f. omega arith }

-- In every table that the service reaches from the empty one, by any operations in any order, row
-- ids are distinct and each rotation chain has at most one live row.
pub Reaches-IsChained : {t : Table} → Reaches t → IsChained t
Reaches-IsChained empty = empty-IsChained
Reaches-IsChained (step r st) = Step-IsChained st (Reaches-IsChained r)

-- Closing rows keeps every row's id and adds to no chain.
abbrev IsClosing : Table → Table → Type 0
IsClosing t u = (map row_key u ≡ map row_key t) × ((f : ℕ) → live_count f u ≤ live_count f t)

revoke_family-IsClosing :
    (family_id : ℕ) (reason : String) (now : ℕ) (t : Table)
    → IsClosing t (revoke_family family_id reason now t).1
unfolding revoke_family
revoke_family-IsClosing family_id reason now t = (
  map-update_where row_key (in_live_family family_id) (close now reason) t (λ x. refl),
  λ f. close_one_live (in_live_family family_id) now reason f t,
)

Refreshes-IsClosing :
    (s : Service) (d : Draw) (raw : String) (ip : Option String) (t : Table)
    {out : Result Refusal IssuedSession × Table} {e : Refusal}
    → Refreshes s d raw ip t out
    → out.0 ≡ err e
    → IsClosing t out.1
unfolding rotate
Refreshes-IsClosing s d raw ip t (nobody p) e = (refl, λ f. omega arith)
Refreshes-IsClosing s d raw ip t (replayed r p u v) e =
    revoke_family-IsClosing r.family_id "reuse_detected" d.revoke_now t
Refreshes-IsClosing s d raw ip t (signed_out r p u v) e = (refl, λ f. omega arith)
Refreshes-IsClosing s d raw ip t (lapsed r p u v) e = (refl, λ f. omega arith)
Refreshes-IsClosing s d raw ip t (outlived r p u v) e =
    revoke_family-IsClosing r.family_id "absolute_expiry" d.revoke_now t
Refreshes-IsClosing s d raw ip t (orphaned r p u v) e =
    revoke_family-IsClosing r.family_id "user_gone" d.revoke_now t
Refreshes-IsClosing s d raw ip t (rotates r a) e = absurd (cc)

-- `refresh` fails closed: whatever the refusal, the table keeps the same row ids, so no token was
-- stored, and no chain has more live rows than before.
pub refresh_fails_closed :
    (s : Service) (d : Draw) (raw : String) (ip : Option String) (t : Table) (e : Refusal)
    → (refresh s d raw ip t).0 ≡ err e
    → (map row_key (refresh s d raw ip t).1 ≡ map row_key t)
      × ((f : ℕ) → live_count f (refresh s d raw ip t).1 ≤ live_count f t)
refresh_fails_closed s d raw ip t e h =
    Refreshes-IsClosing s d raw ip t (refresh-Refreshes s d raw ip t) h

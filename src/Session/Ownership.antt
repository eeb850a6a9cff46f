-- ===== src/Session/Ownership.antt =====
-- A rotation chain belongs to one user and has one beginning, in every table that the service
-- reaches.
use recall_ai.Base.{
  ℕ, String, Bool, Option, none, some, [], ◌∷◌, ◌≡◌, ◌≢◌, sym, ap, ◌∙◌, arith, ◌==◌, ==_refl,
  is_some, if◌then◌else◌, inl, inr, Bool-cases, Result, str_eq, All, All-map, All-save,
  All-find_first, All-update_where, All-delete_where, or_else, save, update_where,
}
use recall_ai.Session.Row.{UserSession, Draw}
use recall_ai.Session.Repository.{
  row_key, has_hash, get_by_hash, in_live_family, live_of_user, close, revoke_family,
  revoke_all_for_user, delete_expired,
}
use recall_ai.Session.Service.{
  Service, IssuedSession, Refusal, start, revoke, revoke_found, revoke_all, revoke_one,
  revoke_target, rotate, new_row, retire, hash_refresh_token,
}
use recall_ai.Session.Chain.{Table}
use recall_ai.Session.Outcomes.{
  Refreshes, nobody, replayed, signed_out, lapsed, outlived, orphaned, rotates, refresh-Refreshes,
}
use recall_ai.Session.Reach.{
  Step, starts, refreshes, revokes, revokes_all, revokes_one, purges, Reaches, empty, step,
}

-- The user and the beginning of each chain.
abbrev pub Ledger : Type 0
Ledger = ℕ → ℕ × ℕ

abbrev pub Agrees : Ledger → UserSession → Type 0
Agrees owner r = owner r.family_id ≡ (r.user_id, r.family_started_at)

pub record IsOwned (t : Table) : Type 0 where
  pub owner : Ledger
  pub agrees : All (Agrees owner) t

close-IsOwned :
    (p : UserSession → Bool) (now : ℕ) (reason : String) {t : Table}
    → IsOwned t
    → IsOwned (update_where p (close now reason) t)
close-IsOwned p now reason {t} h = record {
  owner = h.owner;
  agrees = All-update_where (Agrees h.owner) p (close now reason) t (λ x a _. a) h.agrees;
}

revoke_family-IsOwned :
    (f : ℕ) (reason : String) (now : ℕ) {t : Table}
    → IsOwned t
    → IsOwned (revoke_family f reason now t).1
unfolding revoke_family
revoke_family-IsOwned f reason now h = close-IsOwned (in_live_family f) now reason h

abbrev enter : ℕ → ℕ × ℕ → Ledger → Ledger
enter f entry owner x = if x == f then entry else owner x

start-IsOwned :
    (s : Service) (d : Draw) (user_id : ℕ) (ua ip : Option String) {t : Table}
    → All (λ r. r.family_id ≢ d.family_id) t
    → IsOwned t
    → IsOwned (start s d user_id ua ip t).1
unfolding start
start-IsOwned s d user_id ua ip {t} unused h = record {
  owner = ledger;
  agrees =
      All-save row_key (Agrees ledger) (new_row s d user_id d.family_id d.now ua ip) t
        (rw (==_refl d.family_id)) (All-both t unused h.agrees);
}
  where
    owner : Ledger
    owner = h.owner

    ledger : Ledger
    ledger = enter d.family_id (user_id, d.now) owner

    kept :
        (x : UserSession)
        → x.family_id ≢ d.family_id
        → Agrees owner x
        → Agrees (enter d.family_id (user_id, d.now) owner) x
    kept x n a = elim (Bool-cases (x.family_id == d.family_id)) [
      | inl e ↦ absurd (n (ground arith))
      | inr e ↦ rw e a
    ]

    All-both :
        (xs : Table)
        → All (λ r. r.family_id ≢ d.family_id) xs
        → All (Agrees owner) xs
        → All (Agrees (enter d.family_id (user_id, d.now) owner)) xs
    All-both [] u a = tt
    All-both (x ∷ xs) u a = (kept x u.0 a.0, All-both xs u.1 a.1)

rotate-IsOwned :
    (s : Service) (d : Draw) (raw : String) (ip : Option String) (r : UserSession) {t : Table}
    → get_by_hash (hash_refresh_token s raw) t ≡ some r
    → IsOwned t
    → IsOwned (rotate s d ip r t).1
unfolding rotate get_by_hash
rotate-IsOwned s d raw ip r {t} found h =
    let holds = Agrees h.owner in
    let mine : holds r =
      All-find_first holds (has_hash (hash_refresh_token s raw)) t h.agrees found in
    let successor =
      new_row s d r.user_id r.family_id r.family_started_at r.user_agent
        (or_else ip r.ip_address) in
    record {
      owner = h.owner;
      agrees =
          All-save row_key holds (retire d r) (save row_key successor t) mine
            (All-save row_key holds successor t mine h.agrees);
    }

Refreshes-IsOwned :
    (s : Service) (d : Draw) (raw : String) (ip : Option String) (t : Table)
    {out : Result Refusal IssuedSession × Table}
    → Refreshes s d raw ip t out
    → IsOwned t
    → IsOwned out.1
Refreshes-IsOwned s d raw ip t (nobody p) h = h
Refreshes-IsOwned s d raw ip t (replayed r p u v) h =
    revoke_family-IsOwned r.family_id "reuse_detected" d.revoke_now h
Refreshes-IsOwned s d raw ip t (signed_out r p u v) h = h
Refreshes-IsOwned s d raw ip t (lapsed r p u v) h = h
Refreshes-IsOwned s d raw ip t (outlived r p u v) h =
    revoke_family-IsOwned r.family_id "absolute_expiry" d.revoke_now h
Refreshes-IsOwned s d raw ip t (orphaned r p u v) h =
    revoke_family-IsOwned r.family_id "user_gone" d.revoke_now h
Refreshes-IsOwned s d raw ip t (rotates r a) h = rotate-IsOwned s d raw ip r a.presented h

revoke_found-IsOwned :
    (d : Draw) (reason : String) (found : Option UserSession) {t : Table}
    → IsOwned t
    → IsOwned (revoke_found d reason found t)
unfolding revoke_found
revoke_found-IsOwned d reason none h = h
revoke_found-IsOwned d reason (some r) h = elim (Bool-cases (is_some r.revoked_at)) [
  | inl e ↦ rw e h
  | inr e ↦ rw e (revoke_family-IsOwned r.family_id reason d.revoke_now h)
]

revoke-IsOwned :
    (s : Service) (d : Draw) (raw : Option String) (reason : String) {t : Table}
    → IsOwned t
    → IsOwned (revoke s d raw reason t)
unfolding revoke
revoke-IsOwned s d none reason h = h
revoke-IsOwned s d (some raw) reason {t} h = elim (Bool-cases (str_eq raw "")) [
  | inl e ↦ rw e h
  | inr e ↦ rw e (revoke_found-IsOwned d reason (get_by_hash (hash_refresh_token s raw) t) h)
]

revoke_target-IsOwned :
    (d : Draw) (found : Option UserSession) {t : Table}
    → IsOwned t
    → IsOwned (revoke_target d found t).1
unfolding revoke_target
revoke_target-IsOwned d none h = h
revoke_target-IsOwned d (some r) h =
    revoke_family-IsOwned r.family_id "revoked_by_user" d.revoke_now h

Step-IsOwned : {t u : Table} → Step t u → IsOwned t → IsOwned u
unfolding revoke_all revoke_all_for_user revoke_one delete_expired
Step-IsOwned (starts s d user_id ua ip t fresh unused) h = start-IsOwned s d user_id ua ip unused h
Step-IsOwned (refreshes s d raw ip t fresh) h =
    Refreshes-IsOwned s d raw ip t (refresh-Refreshes s d raw ip t) h
Step-IsOwned (revokes s d raw reason t) h = revoke-IsOwned s d raw reason h
Step-IsOwned (revokes_all d user_id reason t) h =
    close-IsOwned (live_of_user user_id) d.revoke_now reason h
Step-IsOwned (revokes_one d user_id session_id t) h = revoke_target-IsOwned d _ h
Step-IsOwned (purges before t) h = record {
  owner = h.owner;
  agrees = All-delete_where (Agrees h.owner) _ t h.agrees;
}

pub Reaches-IsOwned : {t : Table} → Reaches t → IsOwned t
Reaches-IsOwned empty = record { owner = λ f. (0, 0); agrees = tt }
Reaches-IsOwned (step r st) = Step-IsOwned st (Reaches-IsOwned r)

-- In every table that the service reaches, any two rows of one rotation chain have the same user
-- and the same `family_started_at`: no rotation moves a chain to another user or puts off its
-- absolute deadline.
pub chain_is_fixed :
    {t : Table}
    → Reaches t
    → All
        (λ r.
          All
            (λ x.
              x.family_id ≡ r.family_id
              → (x.user_id ≡ r.user_id) × (x.family_started_at ≡ r.family_started_at))
            t)
        t
chain_is_fixed {t} reached =
    let owner = (Reaches-IsOwned reached).owner in
    let h = (Reaches-IsOwned reached).agrees in
    All-map (Agrees owner) _ t
      (λ r mine.
        All-map (Agrees owner) _ t
          (λ x theirs e.
            let both : (x.user_id, x.family_started_at) ≡ (r.user_id, r.family_started_at) =
              sym theirs ∙ ap owner e ∙ mine in
            (ap (λ (p : ℕ × ℕ). p.0) both, ap (λ (p : ℕ × ℕ). p.1) both))
          h)
      h

-- ===== src/Session/Revocation.antt =====
-- What signing out does: this device, every device, one device from the list.
use recall_ai.Base.{
  ℕ, String, Bool, true, false, not, Option, none, some, ◌≡◌, ◌≢◌, ◌↔◌, refl, sym, ap, ◌∙◌, arith,
  ◌==◌, ◌&&◌, is_some, if◌then◌else◌, inl, inr, Bool-cases, Option-cases, str_eq, ok,
  some-injective, str_ne, and-false_iff, All, All-map, All-find_first, All-order_desc,
  All-pointwise, find_first, select_where, update_where, count_where, count_where-zero,
  update_where-All, find_first-update_where, find_first-none_iff, select_where-update_where,
  All-select_where, order_desc,
}
use recall_ai.Session.Row.{UserSession, Draw}
use recall_ai.Session.Repository.{
  has_hash, get_by_hash, in_live_family, live_of_user, close, is_active_for, list_active_for_user,
  revoke_family, revoke_all_for_user,
}
use recall_ai.Session.Service.{
  Service, IssuedSession, refresh, revoke, revoke_found, revoke_all, revoke_one, revoke_target,
  hash_refresh_token,
}
use recall_ai.Session.Chain.{Table}
use recall_ai.Session.Rotation.{refresh-ok_iff}
use recall_ai.Session.Reach.{Reaches}
use recall_ai.Session.Ownership.{Agrees, Reaches-IsOwned}

abbrev pub of_other_user : ℕ → UserSession → Bool
of_other_user user_id r = not (r.user_id == user_id)

-- Signing out everywhere leaves no live row of the user, and leaves the rows of all other users as
-- they were, in their order.
pub revoke_all_closes :
    (d : Draw) (user_id : ℕ) (reason : String) (t : Table)
    → (count_where (live_of_user user_id) (revoke_all d user_id reason t).1 ≡ 0)
      × (select_where (of_other_user user_id) (revoke_all d user_id reason t).1
          ≡ select_where (of_other_user user_id) t)
unfolding revoke_all revoke_all_for_user
revoke_all_closes d user_id reason t =
    let mine = live_of_user user_id in
    (
      count_where-zero mine _ (
          update_where-All (λ x. mine x ≡ false) mine (close d.revoke_now reason) t
            (λ x h. ground arith) (λ x h. h)),
      select_where-update_where (of_other_user user_id) mine (close d.revoke_now reason) t
          (All-pointwise _ t (λ x h. (ground arith, ground arith))),
    )

-- The row that `revoke` looked up is closed afterwards.
found_row_is_closed :
    (d : Draw) (q : UserSession → Bool) (reason : String) (t : Table) (o : UserSession)
    {r : UserSession}
    → ((x : UserSession) → q (close d.revoke_now reason x) ≡ q x)
    → find_first q t ≡ some o
    → find_first q (revoke_found d reason (some o) t) ≡ some r
    → is_some r.revoked_at ≡ true
unfolding revoke_found
found_row_is_closed d q reason t o {r} kept e h = elim (Bool-cases (is_some o.revoked_at)) [
  | inl c ↦
      let unchanged : find_first q t ≡ some r = rw c at h in
      let same : o ≡ r = some-injective _ _ (sym e ∙ unchanged) in
      ap (λ (x : UserSession). is_some x.revoked_at) (sym same) ∙ c
  | inr c ↦
      let closed : find_first q
            (update_where (in_live_family o.family_id) (close d.revoke_now reason) t)
          ≡ some r =
        rw c at h in
      let touched : in_live_family o.family_id o ≡ true = ground arith in
      let same : (if in_live_family o.family_id o then close d.revoke_now reason o else o) ≡ r =
        some-injective _ _ (
          sym (
            find_first-update_where q (in_live_family o.family_id) (close d.revoke_now reason) t
              kept e)
          ∙ closed) in
      ap (λ (x : UserSession). is_some x.revoked_at) (sym same) ∙ rw touched
]

revoked_row_is_closed :
    (s : Service) (d : Draw) (raw reason : String) (t : Table) {r : UserSession}
    → str_eq raw "" ≡ false
    → get_by_hash (hash_refresh_token s raw) (revoke s d (some raw) reason t) ≡ some r
    → is_some r.revoked_at ≡ true
unfolding revoke get_by_hash
revoked_row_is_closed s d raw reason t {r} named h =
    let q = has_hash (hash_refresh_token s raw) in
    let written : find_first q (revoke_found d reason (find_first q t) t) ≡ some r =
      rw named at h in
    elim (Option-cases (find_first q t)) [
      | inl e ↦
          let gone : find_first q t ≡ some r =
            unfold revoke_found in rw (e, revoke_found) at written in
          absurd (cc (gone, e))
      | inr (o, e) ↦ found_row_is_closed d q reason t o (λ x. refl) e (rw e at written)
    ]

-- After a device signs out with its refresh token, that token is never traded again: `refresh`
-- refuses it on the resulting table, whatever the clock, the address and the random values.
pub revoke_ends_session :
    (s : Service) (d d' : Draw) (raw reason : String) (ip : Option String) (t : Table)
    → raw ≢ ""
    → (issued : IssuedSession)
    → (refresh s d' raw ip (revoke s d (some raw) reason t)).0 ≢ ok issued
revoke_ends_session s d d' raw reason ip t named issued h =
    let (r, admissible, _) =
      (refresh-ok_iff s d' raw ip (revoke s d (some raw) reason t) issued).0 h in
    cc (
      revoked_row_is_closed s d raw reason t (str_ne raw named) admissible.presented,
      admissible.open_row,
    )

-- The target of `revoke_one`: a live, unexpired row of the caller with that id.
abbrev pub is_target : ℕ → ℕ → ℕ → UserSession → Bool
is_target user_id session_id now r = is_active_for user_id now r && r.id == session_id

-- Revoking a session by id answers no exactly when the caller has no live, unexpired session with
-- that id, whether the id is unknown or another user's, and then the table is as it was.
pub revoke_one-false :
    (d : Draw) (user_id session_id : ℕ) (t : Table)
    → ((revoke_one d user_id session_id t).0 ≡ false) ↔ (
        All (λ r. is_target user_id session_id d.now r ≡ false) t
        × ((revoke_one d user_id session_id t).1 ≡ t))
unfolding revoke_one list_active_for_user
revoke_one-false d user_id session_id t =
    let p = λ (r : UserSession). r.id == session_id in
    let mine = is_active_for user_id d.now in
    let active = select_where mine t in
    let listed = order_desc (λ (r : UserSession). r.last_used_at) active in
    let missed = λ (r : UserSession). p r ≡ false in
    let skipped = λ (r : UserSession). mine r ≡ true → p r ≡ false in
    let untargeted = λ (r : UserSession). is_target user_id session_id d.now r ≡ false in
    let miss : (find_first p listed ≡ none)
        ↔ All (λ r. is_target user_id session_id d.now r ≡ false) t =
      (
        λ h.
            All-map skipped untargeted t (λ r k. (and-false_iff (mine r) (p r)).0 k)
              ((All-select_where missed mine t).0
                ((All-order_desc _ missed active).1 ((find_first-none_iff p listed).0 h))),
        λ h. (find_first-none_iff p listed).1 (
            (All-order_desc _ missed active).0 (
              (All-select_where missed mine t).1
                (All-map untargeted skipped t (λ r k. (and-false_iff (mine r) (p r)).1 k) h))),
      ) in
    elim (Option-cases (find_first p listed)) [
      | inl e ↦ rw (e, revoke_target) (λ _. (miss.0 e, refl), λ _. refl)
      | inr (o, e) ↦ rw (e, revoke_target) (λ h. absurd (cc), λ h. absurd (cc (miss.1 h.0, e)))
    ]

family_of : (x o : UserSession) → in_live_family o.family_id x ≡ true → x.family_id ≡ o.family_id
family_of x o h = ground arith

-- In a table that the service has reached, revoking a session from one's own list leaves the rows
-- of every other user as they were, whatever id is named.
pub revoke_one_scope :
    (d : Draw) (user_id session_id : ℕ) {t : Table}
    → Reaches t
    → select_where (of_other_user user_id) (revoke_one d user_id session_id t).1
      ≡ select_where (of_other_user user_id) t
unfolding revoke_one list_active_for_user
revoke_one_scope d user_id session_id {t} reached =
    let p = λ (r : UserSession). r.id == session_id in
    let mine = is_active_for user_id d.now in
    let active = select_where mine t in
    let listed = order_desc (λ (r : UserSession). r.last_used_at) active in
    let owned = Reaches-IsOwned reached in
    let entry = λ (r : UserSession). Agrees owned.owner r × (mine r ≡ true) in
    let entries : All entry listed =
      (All-order_desc _ entry active).0
        ((All-select_where entry mine t).1 (All-map _ _ t (λ r a m. (a, m)) owned.agrees)) in
    elim (Option-cases (find_first p listed)) [
      | inl e ↦ rw (e, revoke_target) refl
      | inr (o, e) ↦
          let chosen : entry o = All-find_first entry p listed entries e in
          let of_caller : o.user_id ≡ user_id = ground (arith, chosen.1) in
          rw (e, revoke_target)
            (unfold revoke_family in
              select_where-update_where (of_other_user user_id) (in_live_family o.family_id)
                (close d.revoke_now "revoked_by_user") t
                (All-map _ _ t
                  (λ x a h.
                    let same : (x.user_id, x.family_started_at) ≡ (o.user_id, o.family_started_at) =
                      sym a ∙ ap owned.owner (family_of x o h) ∙ chosen.0 in
                    let theirs : x.user_id ≡ user_id = ap (λ (q : ℕ × ℕ). q.0) same ∙ of_caller in
                    (ground arith, ground arith))
                  owned.agrees))
    ]

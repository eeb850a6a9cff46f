-- ===== src/Session/Outcomes.antt =====
-- The outcomes of `SessionService.refresh`, as a relation between what the table holds and what the
-- caller and the table get. The proofs about `refresh` go by its cases.
use recall_ai.Base.{
  ℕ, ◌≤◌, ◌<◌, String, true, false, Option, none, some, ◌≡◌, arith, leb, is_some, inl, inr,
  Bool-cases, Option-cases, text_is, Result, err,
}
use recall_ai.Session.Row.{UserSession, Draw}
use recall_ai.Session.Repository.{get_by_hash, revoke_family, get_user}
use recall_ai.Session.Service.{
  Service, IssuedSession, Refusal, unknown_token, revoked, expired, absolute_expiry, user_gone,
  hash_refresh_token, is_gone, absolute_deadline, rotate, refresh_row, refresh_found, refresh,
}
use recall_ai.Session.Chain.{Table}

module _ (s : Service) (d : Draw) (raw : String) (ip : Option String) (t : Table) where
  -- The row that the presented token names.
  abbrev pub Presents : UserSession → Type 0
  Presents r = get_by_hash (hash_refresh_token s raw) t ≡ some r

  -- The row may be rotated: it is open, inside both windows, and its user is there.
  pub record IsAdmissible (r : UserSession) : Type 0 where
    pub presented : Presents r
    pub open_row : is_some r.revoked_at ≡ false
    pub in_window : d.now < r.expires_at
    pub in_chain : d.now < absolute_deadline s r
    pub has_user : is_gone (get_user r.user_id s.users) ≡ false

  abbrev pub killed : UserSession → String → Table
  killed r reason = (revoke_family r.family_id reason d.revoke_now t).1

  pub data Refreshes : Result Refusal IssuedSession × Table → Type 0 where
    nobody : get_by_hash (hash_refresh_token s raw) t ≡ none → Refreshes (err unknown_token, t)
    replayed :
        (r : UserSession)
        → Presents r
        → is_some r.revoked_at ≡ true
        → text_is "rotated" r.revoked_reason ≡ true
        → Refreshes (err revoked, killed r "reuse_detected")
    signed_out :
        (r : UserSession)
        → Presents r
        → is_some r.revoked_at ≡ true
        → text_is "rotated" r.revoked_reason ≡ false
        → Refreshes (err revoked, t)
    lapsed :
        (r : UserSession)
        → Presents r
        → is_some r.revoked_at ≡ false
        → r.expires_at ≤ d.now
        → Refreshes (err expired, t)
    outlived :
        (r : UserSession)
        → Presents r
        → is_some r.revoked_at ≡ false
        → absolute_deadline s r ≤ d.now
        → Refreshes (err absolute_expiry, killed r "absolute_expiry")
    orphaned :
        (r : UserSession)
        → Presents r
        → is_some r.revoked_at ≡ false
        → is_gone (get_user r.user_id s.users) ≡ true
        → Refreshes (err user_gone, killed r "user_gone")
    rotates : (r : UserSession) → IsAdmissible r → Refreshes (rotate s d ip r t)

  lt_of_not_leb : (a b : ℕ) → leb a b ≡ false → b < a
  lt_of_not_leb a b h = ground arith

  le_of_leb : (a b : ℕ) → leb a b ≡ true → a ≤ b
  le_of_leb a b h = ground arith

  refresh_row-Refreshes : (r : UserSession) → Presents r → Refreshes (refresh_row s d ip r t)
  unfolding refresh_row
  refresh_row-Refreshes r p = elim (Bool-cases (is_some r.revoked_at)) [
    | inl e ↦ rw e (elim (Bool-cases (text_is "rotated" r.revoked_reason)) [
      | inl u ↦ rw u (replayed r p e u)
      | inr u ↦ rw u (signed_out r p e u)
    ])
    | inr e ↦ rw e (elim (Bool-cases (leb r.expires_at d.now)) [
      | inl u ↦ rw u (lapsed r p e (le_of_leb _ _ u))
      | inr u ↦ rw u (elim (Bool-cases (leb (absolute_deadline s r) d.now)) [
        | inl v ↦ rw v (outlived r p e (le_of_leb _ _ v))
        | inr v ↦ rw v (elim (Bool-cases (is_gone (get_user r.user_id s.users))) [
          | inl w ↦ rw w (orphaned r p e w)
          | inr w ↦ rw w (
              rotates r (record {
                presented = p;
                open_row = e;
                in_window = lt_of_not_leb _ _ u;
                in_chain = lt_of_not_leb _ _ v;
                has_user = w;
              }))
        ])
      ])
    ])
  ]

  pub refresh-Refreshes : Refreshes (refresh s d raw ip t)
  unfolding refresh refresh_found
  refresh-Refreshes = elim (Option-cases (get_by_hash (hash_refresh_token s raw) t)) [
    | inl e ↦ rw (e, refresh_found) (nobody e)
    | inr (r, e) ↦ rw (e, refresh_found) (refresh_row-Refreshes r e)
  ]

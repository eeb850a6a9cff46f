-- ===== src/Session/Rotation.antt =====
-- What a caller of `refresh` gets: when it succeeds, what a replay meets, and that the token which
-- it hands out is the next one that it takes.
use recall_ai.Base.{
  ◌<◌, String, false, Option, some, ◌≡◌, ◌↔◌, refl, sym, ap, arith, leb, eq_refl, Result, ok, err,
  All, count_where-zero, update_where-All, save, Fresh, find_first-save, All-find_first, ◌==◌,
  find_first, Distinct-save, find_first-save_new, find_first-save_old, find_first-save_unseen,
  find_first_holds, ◌∙◌,
}
use recall_ai.Session.Row.{UserSession, Draw}
use recall_ai.Session.Repository.{
  row_key, has_hash, get_by_hash, in_live_family, revoke_family, close,
}
use recall_ai.Session.Service.{
  Service, IssuedSession, Refusal, revoked, hash_refresh_token, absolute_deadline, refresh_deadline,
  issued_for, new_row, retire, rotate, refresh_row, refresh_found, refresh,
}
use recall_ai.Session.Chain.{Table, IsChained, live_count, by_key, successor}
use recall_ai.Session.Outcomes.{
  IsAdmissible, killed, Refreshes, nobody, replayed, signed_out, lapsed, outlived, orphaned,
  rotates, refresh-Refreshes,
}

module _ (s : Service) (d : Draw) (raw : String) (ip : Option String) (t : Table) where
  refresh-eq-rotate :
      (r : UserSession) → IsAdmissible s d raw ip t r → refresh s d raw ip t ≡ rotate s d ip r t
  unfolding refresh refresh_found
  refresh-eq-rotate r a =
      let unexpired : leb r.expires_at d.now ≡ false = ground (arith, a.in_window) in
      let young : leb (absolute_deadline s r) d.now ≡ false = ground (arith, a.in_chain) in
      rw (a.presented, refresh_found)
        (unfold refresh_row in rw (a.open_row, unexpired, young, a.has_user))

  Refreshes-answered :
      {out : Result Refusal IssuedSession × Table} (issued : IssuedSession)
      → Refreshes s d raw ip t out
      → out.0 ≡ ok issued
      → (r : UserSession) × IsAdmissible s d raw ip t r × (issued ≡ issued_for s d r.user_id)
  unfolding rotate
  Refreshes-answered issued (rotates r a) e = (r, a, cc)
  Refreshes-answered issued (nobody p) e = absurd (cc)
  Refreshes-answered issued (replayed r p u v) e = absurd (cc)
  Refreshes-answered issued (signed_out r p u v) e = absurd (cc)
  Refreshes-answered issued (lapsed r p u v) e = absurd (cc)
  Refreshes-answered issued (outlived r p u v) e = absurd (cc)
  Refreshes-answered issued (orphaned r p u v) e = absurd (cc)

  -- `refresh` answers with tokens exactly when the presented digest names a row that is open, whose
  -- sliding and absolute windows the clock has not reached, and whose user exists and is not
  -- deleted; and then the tokens are the ones for that row's user.
  pub refresh-ok_iff :
      (issued : IssuedSession)
      → ((refresh s d raw ip t).0 ≡ ok issued)
        ↔ ((r : UserSession) × IsAdmissible s d raw ip t r × (issued ≡ issued_for s d r.user_id))
  refresh-ok_iff issued = (
    Refreshes-answered issued (refresh-Refreshes s d raw ip t),
    λ h. rw (refresh-eq-rotate h.0 h.1) (unfold rotate in ap ok (sym h.2)),
  )

  -- A killed chain has no live row.
  live_count-killed :
      (r : UserSession) (reason : String)
      → live_count r.family_id (killed s d raw ip t r reason) ≡ 0
  unfolding revoke_family
  live_count-killed r reason = count_where-zero (in_live_family r.family_id) _ (
      update_where-All (λ x. in_live_family r.family_id x ≡ false) (in_live_family r.family_id)
        (close d.revoke_now reason) t (λ x h. ground arith) (λ x h. h))

module _ (s : Service) (d : Draw) (raw : String) (ip : Option String) (t : Table) (r : UserSession)
    (chained : IsChained t) (fresh : Fresh row_key d.row_id t)
    (admissible : IsAdmissible s d raw ip t r) where
  abbrev next : UserSession
  next =
      successor s d (hash_refresh_token s raw) ip r t chained fresh admissible.presented
        admissible.open_row

  abbrev after : Table
  after = (refresh s d raw ip t).1

  old_by_key : find_first (λ x. row_key x == row_key r) (save row_key next t) ≡ some r
  old_by_key =
      by_key s d (hash_refresh_token s raw) ip r t chained fresh admissible.presented
        admissible.open_row

  after-eq-saved : after ≡ save row_key (retire d r) (save row_key next t)
  unfolding rotate
  after-eq-saved =
      ap (λ (o : Result Refusal IssuedSession × Table). o.1)
        (refresh-eq-rotate s d raw ip t r admissible)

  -- The presented token still names its row, now retired.
  retired_presented : get_by_hash (hash_refresh_token s raw) after ≡ some (retire d r)
  unfolding get_by_hash retire new_row
  retired_presented = rw after-eq-saved (
      find_first-save row_key (has_hash (hash_refresh_token s raw)) (retire d r)
        (save row_key next t) (Distinct-save row_key next t chained.distinct)
        (find_first-save_old row_key (has_hash (hash_refresh_token s raw)) next t fresh
          admissible.presented)
        refl (find_first_holds (has_hash (hash_refresh_token s raw)) t admissible.presented))

  -- A token that a rotation has used up, presented to the resulting table at any later request, is
  -- refused, and no row of its chain is live after that: neither the thief's nor the owner's.
  pub refresh-replayed :
      (d' : Draw) (ip' : Option String)
      → ((refresh s d' raw ip' after).0 ≡ err revoked)
        × (live_count r.family_id (refresh s d' raw ip' after).1 ≡ 0)
  refresh-replayed d' ip' =
      let step : refresh s d' raw ip' after
          ≡ (err revoked, killed s d' raw ip' after r "reuse_detected") =
        unfold refresh in
        rw (retired_presented, refresh_found) (unfold refresh_row retire in refl) in
      rw step (refl, live_count-killed s d' raw ip' after r "reuse_detected")

  -- The row of the new token answers to it, where no older row has its digest.
  next_presented :
      All (λ x. has_hash (hash_refresh_token s d.raw) x ≡ false) t
      → get_by_hash (hash_refresh_token s d.raw) after ≡ some next
  unfolding get_by_hash retire new_row
  next_presented unused =
      let q = has_hash (hash_refresh_token s d.raw) in
      let old : q r ≡ false =
        All-find_first (λ x. q x ≡ false) (has_hash (hash_refresh_token s raw)) t unused
          admissible.presented in
      rw after-eq-saved (
        find_first-save_unseen row_key q (retire d r) (save row_key next t) old_by_key old old
        ∙ find_first-save_new row_key q next t fresh unused (eq_refl _))

  -- The token that a rotation hands out is good for the next one: presented to the resulting table
  -- while the new sliding window and the chain's absolute window are open, it is traded again. The
  -- conditions are that the new digest was in no older row, and that time and user still allow it.
  pub refresh-refresh :
      (d' : Draw) (ip' : Option String)
      → All (λ x. has_hash (hash_refresh_token s d.raw) x ≡ false) t
      → d'.now < refresh_deadline s d
      → d'.now < absolute_deadline s r
      → (refresh s d' d.raw ip' after).0 ≡ ok (issued_for s d' r.user_id)
  refresh-refresh d' ip' unused window chain =
      let good : IsAdmissible s d' d.raw ip' after next = record {
        presented = next_presented unused;
        open_row = unfold new_row in refl;
        in_window = unfold new_row in window;
        in_chain = unfold new_row in chain;
        has_user = unfold new_row in admissible.has_user;
      } in
      rw (refresh-eq-rotate s d' d.raw ip' after next good) (unfold rotate new_row in refl)

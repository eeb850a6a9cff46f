-- ===== src/Session/Chain.antt =====
-- What every operation of app/services/session_service.py keeps of the table: one live row to a
-- rotation chain, and one user and one beginning to a chain.
use recall_ai.Base.{
  ℕ, ◌+◌, ◌≤◌, String, Bool, false, Option, some, List, ◌≡◌, ◌≢◌, refl, arith, ◌==◌, is_some, bit,
  inl, inr, Bool-cases, All, All-map, find_first, update_where, count_where,
  count_where-update_where, count_where-zero, save, Distinct, Fresh, Distinct-save,
  Distinct-update_where, find_first-key, count_where-save, count_where-save_new,
  find_first-save_old, ap, bit-le-one, or_else,
}
use recall_ai.Session.Row.{UserSession, Draw}
use recall_ai.Session.Repository.{
  row_key, has_hash, get_by_hash, close, in_live_family, revoke_family,
}
use recall_ai.Session.Service.{Service, new_row, start, retire, rotate}

abbrev pub Table : Type 0
Table = List UserSession

-- The live rows of a chain.
abbrev pub live_count : ℕ → Table → ℕ
live_count f t = count_where (in_live_family f) t

pub record IsChained (t : Table) : Type 0 where
  pub distinct : Distinct row_key t
  pub one_live : (f : ℕ) → live_count f t ≤ 1

-- No operation that closes rows adds to a chain.
pub close_one_live :
    (p : UserSession → Bool) (now : ℕ) (reason : String) (f : ℕ) (t : Table)
    → live_count f (update_where p (close now reason) t) ≤ live_count f t
close_one_live p now reason f t =
    count_where-update_where (in_live_family f) p (close now reason) t (λ x _. ground arith)

pub close-IsChained :
    (p : UserSession → Bool) (now : ℕ) (reason : String) {t : Table}
    → IsChained t
    → IsChained (update_where p (close now reason) t)
close-IsChained p now reason {t} h = record {
  distinct = Distinct-update_where row_key p (close now reason) t (λ x. refl) h.distinct;
  one_live = λ f. omega (arith, close_one_live p now reason f t, h.one_live f);
}

pub revoke_family-IsChained :
    (f : ℕ) (reason : String) (now : ℕ) {t : Table}
    → IsChained t
    → IsChained (revoke_family f reason now t).1
unfolding revoke_family
revoke_family-IsChained f reason now h = close-IsChained (in_live_family f) now reason h

-- A new row keeps the invariant where no live row of its chain is left.
insert-IsChained :
    (row : UserSession) {t : Table}
    → Fresh row_key row.id t
    → ((f : ℕ) → live_count f t + bit (in_live_family f row) ≤ 1)
    → IsChained t
    → IsChained (save row_key row t)
insert-IsChained row {t} fresh room h = record {
  distinct = Distinct-save row_key row t h.distinct;
  one_live =
      λ f. omega (arith, count_where-save_new row_key (in_live_family f) row t fresh, room f);
}

-- The bound for a row of a chain that the table does not hold.
room_of_unused :
    (row : UserSession) {t : Table}
    → All (λ r. r.family_id ≢ row.family_id) t
    → IsChained t
    → (f : ℕ) → live_count f t + bit (in_live_family f row) ≤ 1
room_of_unused row {t} unused h f = elim (Bool-cases (row.family_id == f)) [
  | inl e ↦
      let empty : live_count f t ≡ 0 =
        count_where-zero (in_live_family f) t
          (All-map _ (λ r. in_live_family f r ≡ false) t (λ r n. ground arith) unused) in
      omega (arith, empty, bit-le-one (in_live_family f row))
  | inr e ↦
      let outside : in_live_family f row ≡ false = ground arith in
      omega (arith, ap bit outside, h.one_live f)
]

pub start-IsChained :
    (s : Service) (d : Draw) (user_id : ℕ) (ua ip : Option String) {t : Table}
    → Fresh row_key d.row_id t
    → All (λ r. r.family_id ≢ d.family_id) t
    → IsChained t
    → IsChained (start s d user_id ua ip t).1
unfolding start
start-IsChained s d user_id ua ip {t} fresh unused h =
    let row = new_row s d user_id d.family_id d.now ua ip in
    insert-IsChained row fresh (room_of_unused row unused h) h

-- A rotation moves the one live place of its chain from the old row to the new one.
module _ (s : Service) (d : Draw) (h : String) (ip : Option String) (r : UserSession) (t : Table)
    (chained : IsChained t) (fresh : Fresh row_key d.row_id t) (found : get_by_hash h t ≡ some r)
    (live : is_some r.revoked_at ≡ false) where
  abbrev pub successor : UserSession
  successor =
      new_row s d r.user_id r.family_id r.family_started_at r.user_agent (or_else ip r.ip_address)

  pub by_key : find_first (λ x. row_key x == row_key r) (save row_key successor t) ≡ some r
  unfolding get_by_hash new_row
  by_key =
      find_first-save_old row_key (λ x. row_key x == row_key r) successor t fresh
        (find_first-key row_key (has_hash h) t chained.distinct found)

  rotated : Table
  rotated = save row_key (retire d r) (save row_key successor t)

  live_count-rotated : (f : ℕ) → live_count f rotated ≡ live_count f t
  unfolding rotated new_row retire
  live_count-rotated f =
      let same : in_live_family f r ≡ in_live_family f successor = ground arith in
      let closed : in_live_family f (retire d r) ≡ false = ground arith in
      omega (
        arith,
        count_where-save row_key (in_live_family f) (retire d r) (save row_key successor t) by_key,
        count_where-save_new row_key (in_live_family f) successor t fresh,
        ap bit same,
        ap bit closed,
      )

  pub live_count-rotate : (f : ℕ) → live_count f (rotate s d ip r t).1 ≡ live_count f t
  unfolding rotate rotated
  live_count-rotate f = live_count-rotated f

  pub rotate-IsChained : IsChained (rotate s d ip r t).1
  rotate-IsChained = record {
    distinct =
        unfold rotate in
        Distinct-save row_key (retire d r) (save row_key successor t)
          (Distinct-save row_key successor t chained.distinct);
    one_live = λ f. rw (live_count-rotate f) (chained.one_live f);
  }

-- ===== src/Telegram/Binding.antt =====
-- Bindings: one to a user and one to a Telegram identity, what redeeming a link binds, and that no
-- link binds an identity that somebody else holds.
use recall_ai.Base.{
  ℕ, ◌≤◌, String, Bool, false, Option, none, some, some-injective, List, ◌≡◌, ◌≢◌, refl, sym, ap,
  ◌∙◌, arith, ◌==◌, ==_iff, ==_refl, inl, inr, Bool-cases, bit, bit-le-one, All, All-delete_where,
  find_first, find_first_holds, find_first-none_iff, count_where, count_where-zero,
  All-of_count_where, count_where-delete_where, count_where-delete_where_found,
  find_first-delete_where_kept, delete_where, save, Distinct, Fresh, Distinct-save,
  Distinct-delete_where, count_where-save, count_where-save_new, find_first-key,
  find_first-save_new, eq_refl, eq_iff,
}
use recall_ai.Telegram.Row.{TelegramAccount, Db, TelegramIdentity, Draw}
use recall_ai.Telegram.Repository.{
  account_key, speaks_as, is_of_user, get_by_telegram_user_id, get_for_user, add_account,
}
use recall_ai.Telegram.Linking.{apply, new_account, bind_user, replace_prior}

abbrev pub Accounts : Type 0
Accounts = List TelegramAccount

-- One binding to a user, and one to a Telegram identity.
pub record IsBound (t : Accounts) : Type 0 where
  pub distinct : Distinct account_key t
  pub one_of_user : (u : ℕ) → count_where (is_of_user u) t ≤ 1
  pub one_speaker : (s : String) → count_where (speaks_as s) t ≤ 1

pub delete-IsBound :
    (p : TelegramAccount → Bool) {t : Accounts} → IsBound t → IsBound (delete_where p t)
delete-IsBound p {t} h = record {
  distinct = Distinct-delete_where account_key p t h.distinct;
  one_of_user = λ u. omega (arith, count_where-delete_where (is_of_user u) p t, h.one_of_user u);
  one_speaker = λ s. omega (arith, count_where-delete_where (speaks_as s) p t, h.one_speaker s);
}

-- A row that speaks for its user and identity alone.
add_new-IsBound :
    (a : TelegramAccount) {t : Accounts}
    → Fresh account_key a.id t
    → count_where (is_of_user a.user_id) t ≡ 0
    → count_where (speaks_as a.telegram_user_id) t ≡ 0
    → IsBound t
    → IsBound (save account_key a t)
add_new-IsBound a {t} fresh no_user no_speaker h = record {
  distinct = Distinct-save account_key a t h.distinct;
  one_of_user = λ u.
      let sum = count_where-save_new account_key (is_of_user u) a t fresh in
      elim (Bool-cases (a.user_id == u)) [
        | inl e ↦
            let here = ap (λ (v : ℕ). count_where (is_of_user v) t) ((==_iff _ _).0 e) in
            omega (arith, sum, here, no_user, bit-le-one (is_of_user u a))
        | inr e ↦ omega (arith, sum, ap bit e, h.one_of_user u)
      ];
  one_speaker = λ s.
      let sum = count_where-save_new account_key (speaks_as s) a t fresh in
      elim (Bool-cases (speaks_as s a)) [
        | inl e ↦
            let here = ap (λ (v : String). count_where (speaks_as v) t) ((eq_iff _ _).0 e) in
            omega (arith, sum, here, no_speaker, bit-le-one (speaks_as s a))
        | inr e ↦ omega (arith, sum, ap bit e, h.one_speaker s)
      ];
}

pub apply-IsBound :
    (i : TelegramIdentity) (now : ℕ) (a : TelegramAccount) {t : Accounts}
    → find_first (λ x. account_key x == a.id) t ≡ some a
    → IsBound t
    → IsBound (save account_key (apply i now a) t)
apply-IsBound i now a {t} e h = record {
  distinct = Distinct-save account_key (apply i now a) t h.distinct;
  one_of_user = λ u.
      omega
        (arith, count_where-save account_key (is_of_user u) (apply i now a) t e, h.one_of_user u);
  one_speaker = λ s.
      omega
        (arith, count_where-save account_key (speaks_as s) (apply i now a) t e, h.one_speaker s);
}

-- Clearing a user's prior binding.
replace_prior-IsBound :
    (o : Option TelegramAccount) (db : Db)
    → IsBound db.accounts
    → IsBound (replace_prior o db).accounts
unfolding replace_prior
replace_prior-IsBound none db h = h
replace_prior-IsBound (some a) db h = delete-IsBound _ h

pub All-replace_prior {κ} :
    (P : TelegramAccount → Type κ) (o : Option TelegramAccount) (db : Db)
    → All P db.accounts
    → All P (replace_prior o db).accounts
unfolding replace_prior
All-replace_prior P none db a = a
All-replace_prior P (some x) db a = All-delete_where P _ db.accounts a

replace_prior_cleared :
    (user_id : ℕ) (o : Option TelegramAccount) (db : Db)
    → IsBound db.accounts
    → get_for_user user_id db ≡ o
    → count_where (is_of_user user_id) (replace_prior o db).accounts ≡ 0
unfolding replace_prior get_for_user
replace_prior_cleared user_id none db h e =
    count_where-zero (is_of_user user_id) db.accounts ((find_first-none_iff _ _).0 e)
replace_prior_cleared user_id (some a) db h e =
    count_where-delete_where_found (is_of_user user_id) (λ x. x.id == a.id) db.accounts
      (h.one_of_user user_id) e (==_refl a.id)

-- What speaks for another user stays.
pub replace_prior_keeps :
    (user_id : ℕ) (o : Option TelegramAccount) (db : Db) (s : String) {a : TelegramAccount}
    → IsBound db.accounts
    → get_for_user user_id db ≡ o
    → find_first (speaks_as s) db.accounts ≡ some a
    → a.user_id ≢ user_id
    → find_first (speaks_as s) (replace_prior o db).accounts ≡ some a
unfolding replace_prior get_for_user
replace_prior_keeps user_id none db s h e held other = held
replace_prior_keeps user_id (some p) db s {a} h e held other =
    find_first-delete_where_kept (speaks_as s) (λ x. x.id == p.id) db.accounts held
      (elim (Bool-cases (a.id == p.id)) [
        | inl k ↦
            let at_a = find_first-key account_key (speaks_as s) db.accounts h.distinct held in
            let at_p = find_first-key account_key (is_of_user user_id) db.accounts h.distinct e in
            let same : a ≡ p = some-injective _ _ (
              sym at_a
              ∙ ap (λ (n : ℕ). find_first (λ x. account_key x == n) db.accounts) ((==_iff _ _).0 k)
              ∙ at_p) in
            let own = find_first_holds (is_of_user user_id) db.accounts e in
            absurd (other (ap (λ (y : TelegramAccount). y.user_id) same ∙ (==_iff _ _).0 own))
        | inr k ↦ k
      ])

-- A user without a binding who takes an identity that nobody holds.
module _ (d : Draw) (i : TelegramIdentity) (user_id : ℕ) (db : Db) (h : IsBound db.accounts)
    (fresh : Fresh account_key d.row_id db.accounts)
    (free : get_by_telegram_user_id i.telegram_user_id db ≡ none) where
  abbrev pub bound : TelegramAccount
  bound = apply i d.now (new_account d i user_id)

  abbrev cleared : Accounts
  cleared = (replace_prior (get_for_user user_id db) db).accounts

  cleared-Fresh : Fresh account_key d.row_id cleared
  cleared-Fresh = All-replace_prior _ (get_for_user user_id db) db fresh

  cleared_speaker : All (λ x. speaks_as i.telegram_user_id x ≡ false) cleared
  unfolding get_by_telegram_user_id
  cleared_speaker =
      All-replace_prior _ (get_for_user user_id db) db ((find_first-none_iff _ _).0 free)

  cleared_user : count_where (is_of_user user_id) cleared ≡ 0
  cleared_user = replace_prior_cleared user_id (get_for_user user_id db) db h refl

  pub bind_user-IsBound : IsBound (bind_user d i user_id db).1.accounts
  unfolding bind_user add_account
  bind_user-IsBound =
      add_new-IsBound bound cleared-Fresh cleared_user
        (count_where-zero (speaks_as i.telegram_user_id) cleared cleared_speaker)
        (replace_prior-IsBound (get_for_user user_id db) db h)

  pub bind_user_resolves :
      (get_by_telegram_user_id i.telegram_user_id (bind_user d i user_id db).1 ≡ some bound)
      × (get_for_user user_id (bind_user d i user_id db).1 ≡ some bound)
  unfolding bind_user add_account get_by_telegram_user_id get_for_user
  bind_user_resolves = (
    find_first-save_new account_key (speaks_as i.telegram_user_id) bound cleared cleared-Fresh
        cleared_speaker (eq_refl i.telegram_user_id),
    find_first-save_new account_key (is_of_user user_id) bound cleared cleared-Fresh
        (All-of_count_where (is_of_user user_id) cleared cleared_user) (==_refl user_id),
  )

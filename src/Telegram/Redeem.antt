-- ===== src/Telegram/Redeem.antt =====
-- Redeeming a link: what it binds, and that no link binds an identity that somebody else holds.
use recall_ai.Base.{
  ℕ, String, Bool, true, false, Option, none, some, some-injective, ◌≡◌, ◌≢◌, refl, sym, ap, ◌∙◌,
  ◌==◌, ==_iff, inl, inr, Bool-cases, Option-cases, find_first, find_first_holds, find_first_unique,
  Fresh, find_first-key, find_first-save, find_first-save_old, find_first-save_unseen, eq_iff,
}
use mathlib.Core.Path.{subst}
use recall_ai.Telegram.Row.{
  TelegramAccount, TelegramLinkToken, Db, TelegramIdentity, LinkOutcome, Bot, Draw,
}
use recall_ai.Telegram.Repository.{
  account_key, speaks_as, is_of_user, get_by_hash, get_by_telegram_user_id, get_for_user, mark_used,
  add_account,
}
use recall_ai.Telegram.Linking.{apply, redeem, bind_user, replace_prior, consume, resolve}
use recall_ai.Telegram.Tokens.{is_dead, consume_found_dead, consume_found_live}
use recall_ai.Telegram.Binding.{
  IsBound, apply-IsBound, bind_user-IsBound, bind_user_resolves, bound, All-replace_prior,
  replace_prior_keeps,
}

-- The identity's binding, found by its key.
by_key :
    (s : String) (db : Db) {a : TelegramAccount}
    → IsBound db.accounts
    → get_by_telegram_user_id s db ≡ some a
    → find_first (λ x. account_key x == a.id) db.accounts ≡ some a
unfolding get_by_telegram_user_id
by_key s db h e = find_first-key account_key (speaks_as s) db.accounts h.distinct e

module _ (d : Draw) (i : TelegramIdentity) (t : TelegramLinkToken) (db : Db)
    (h : IsBound db.accounts) (fresh : Fresh account_key d.row_id db.accounts) where
  redeem-IsBound :
      (o : Option TelegramAccount)
      → get_by_telegram_user_id i.telegram_user_id db ≡ o
      → IsBound (redeem d i t o db).1.accounts
  unfolding redeem mark_used add_account
  redeem-IsBound none e =
      bind_user-IsBound d i t.user_id (mark_used d.now t db) h fresh
        (unfold get_by_telegram_user_id in e)
  redeem-IsBound (some a) e = elim (Bool-cases (a.user_id == t.user_id)) [
    | inl m ↦ rw m (apply-IsBound i d.now a (by_key i.telegram_user_id db h e) h)
    | inr m ↦ rw m h
  ]

-- Redeeming a link keeps one binding to a user and one to a Telegram identity.
pub consume-IsBound :
    (bot : Bot) (d : Draw) (raw : String) (i : TelegramIdentity) (db : Db)
    → Fresh account_key d.row_id db.accounts
    → IsBound db.accounts
    → IsBound (consume bot d raw i db).1.accounts
unfolding consume
consume-IsBound bot d raw i db fresh h =
    let found = get_by_hash (bot.hash_link_token raw) db in
    elim (Bool-cases (is_dead d.now found)) [
      | inl e ↦ rw (consume_found_dead d i found db e) h
      | inr e ↦ elim (Option-cases found) [
        | inl n ↦ absurd (cc (rw n at e))
        | inr (t, n) ↦
            let live : is_dead d.now (some t) ≡ false = sym (ap (is_dead d.now) n) ∙ e in
            rw (n, consume_found_live d i t db live) (redeem-IsBound d i t db h fresh _ refl)
      ]
    ]

-- The presented link is live, and its user is `user_id`.
pub record IsLive (bot : Bot) (now : ℕ) (raw : String) (db : Db) (t : TelegramLinkToken)
    : Type 0 where
  pub presented : get_by_hash (bot.hash_link_token raw) db ≡ some t
  pub unspent : is_dead now (some t) ≡ false

-- The identity is free, or its binding is the user's.
abbrev pub is_open_to : ℕ → Option TelegramAccount → Bool
is_open_to user_id none = true
is_open_to user_id (some a) = a.user_id == user_id

module _ (bot : Bot) (d : Draw) (raw : String) (i : TelegramIdentity) (db : Db)
    (t : TelegramLinkToken) (live : IsLive bot d.now raw db t) (h : IsBound db.accounts)
    (fresh : Fresh account_key d.row_id db.accounts) where
  consume-eq-redeem :
      consume bot d raw i db ≡ redeem d i t (get_by_telegram_user_id i.telegram_user_id db) db
  unfolding consume
  consume-eq-redeem = rw (live.presented) (consume_found_live d i t db live.unspent)

  abbrev Binds : LinkOutcome × Db → Type 0
  Binds out =
      (a : TelegramAccount) × (out.0.account ≡ some a)
      × (a.user_id ≡ t.user_id)
      × (a.telegram_chat_id ≡ i.chat_id)
      × (resolve i.telegram_user_id out.1 ≡ some a)
      × (get_for_user t.user_id out.1 ≡ some a)

  redeem-Binds :
      (o : Option TelegramAccount)
      → get_by_telegram_user_id i.telegram_user_id db ≡ o
      → is_open_to t.user_id o ≡ true
      → Binds (redeem d i t o db)
  unfolding redeem resolve bind_user mark_used
  redeem-Binds none e m =
      let r =
        bind_user_resolves d i t.user_id (mark_used d.now t db) h fresh
          (unfold get_by_telegram_user_id in e) in
      (
        bound d i t.user_id (mark_used d.now t db) h fresh (unfold get_by_telegram_user_id in e),
        refl,
        refl,
        refl,
        r.0,
        r.1,
      )
  redeem-Binds (some a) e m =
      let row = apply i d.now a in
      let key = by_key i.telegram_user_id db h e in
      let speaks : speaks_as i.telegram_user_id a ≡ true =
        unfold get_by_telegram_user_id in
        find_first_holds (speaks_as i.telegram_user_id) db.accounts e in
      rw m (
        row,
        refl,
        (==_iff _ _).0 m,
        refl,
        unfold add_account get_by_telegram_user_id in
            find_first-save account_key (speaks_as i.telegram_user_id) row db.accounts h.distinct e
              refl speaks,
        unfold add_account get_for_user in
            find_first-save account_key (is_of_user t.user_id) row db.accounts h.distinct
              (find_first_unique (λ x. account_key x == a.id) (is_of_user t.user_id) db.accounts
                (h.one_of_user t.user_id) key m)
              refl m,
      )

  -- A live link presented by an identity that is free, or is bound to the link's user already, binds
  -- the identity to that user: the bot resolves the sender to them, and them to the chat. Bindings
  -- are one to a user and one to an identity, and the new row's id is new.
  pub consume_binds :
      is_open_to t.user_id (get_by_telegram_user_id i.telegram_user_id db) ≡ true
      → (a : TelegramAccount) × ((consume bot d raw i db).0.account ≡ some a)
        × (a.user_id ≡ t.user_id)
        × (a.telegram_chat_id ≡ i.chat_id)
        × (resolve i.telegram_user_id (consume bot d raw i db).1 ≡ some a)
        × (get_for_user t.user_id (consume bot d raw i db).1 ≡ some a)
  consume_binds m = subst Binds (sym consume-eq-redeem) (redeem-Binds _ refl m)

  -- The binding of one identity does not speak as another.
  speaks_only :
      (s : String) {a x : TelegramAccount}
      → get_by_telegram_user_id i.telegram_user_id db ≡ some x
      → resolve s db ≡ some a
      → x ≢ a
      → speaks_as s x ≡ false
  unfolding resolve get_by_telegram_user_id
  speaks_only s {a} {x} e held ne = elim (Bool-cases (speaks_as s x)) [
    | inl w ↦
        let own = find_first_holds (speaks_as i.telegram_user_id) db.accounts e in
        let same : s ≡ i.telegram_user_id = sym ((eq_iff _ _).0 w) ∙ (eq_iff _ _).0 own in
        absurd (
          ne (
            some-injective _ _ (
              sym e ∙ ap (λ (v : String). find_first (speaks_as v) db.accounts) (sym same) ∙ held)))
    | inr w ↦ w
  ]

  redeem_others :
      (o : Option TelegramAccount) (s : String) {a : TelegramAccount}
      → get_by_telegram_user_id i.telegram_user_id db ≡ o
      → resolve s db ≡ some a
      → a.user_id ≢ t.user_id
      → resolve s (redeem d i t o db).1 ≡ some a
  unfolding redeem resolve bind_user mark_used
  redeem_others none s {a} e held other =
      let db' = mark_used d.now t db in
      let o = get_for_user t.user_id db' in
      unfold add_account get_by_telegram_user_id in
      find_first-save_old account_key (speaks_as s) _ (replace_prior o db').accounts
        (All-replace_prior _ o db' fresh) (replace_prior_keeps t.user_id o db' s h refl held other)
  redeem_others (some x) s {a} e held other = elim (Bool-cases (x.user_id == t.user_id)) [
    | inl m ↦
        let unseen : speaks_as s x ≡ false =
          speaks_only s e held (λ same.
            other (ap (λ (y : TelegramAccount). y.user_id) (sym same) ∙ (==_iff _ _).0 m)) in
        rw m (
          unfold add_account get_by_telegram_user_id in
          find_first-save_unseen account_key (speaks_as s) (apply i d.now x) db.accounts
            (by_key i.telegram_user_id db h e) unseen unseen
          ∙ held)
    | inr m ↦ rw m (unfold get_by_telegram_user_id in held)
  ]

  -- A Telegram identity that speaks for another user than the link's keeps speaking for them, whoever
  -- redeems the live link, and from whichever identity. Bindings are one to a user and one to an
  -- identity, and the new row's id is new.
  pub consume_keeps_others :
      (s : String) (a : TelegramAccount)
      → resolve s db ≡ some a
      → a.user_id ≢ t.user_id
      → resolve s (consume bot d raw i db).1 ≡ some a
  consume_keeps_others s a held other =
      ap (λ (out : LinkOutcome × Db). resolve s out.1) consume-eq-redeem
      ∙ redeem_others _ s refl held other

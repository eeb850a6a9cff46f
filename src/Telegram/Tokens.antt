-- ===== src/Telegram/Tokens.antt =====
-- Link tokens: which one is live, and that one is presented with success at most once.
use recall_ai.Base.{
  ℕ, ◌+◌, ◌≤◌, ◌<◌, String, Bool, true, false, Option, none, some, ◌≡◌, ◌≢◌, ◌↔◌, refl, sym, ap,
  ◌∙◌, arith, ◌==◌, ==_iff, leb, inl, inr, Bool-cases, Option-cases, is_some, if◌then◌else◌, bit,
  All-update_where, find_first, find_first_holds, count_where, count_where-save_new,
  count_where-update_where_same, count_where-zero, update_where, update_where-All, save, Distinct,
  Fresh, find_first-save,
}
use recall_ai.Telegram.Row.{
  TelegramAccount, TelegramLinkToken, Db, TelegramIdentity, invalid_token, Bot, Draw,
}
use recall_ai.Telegram.Repository.{
  token_key, has_hash, get_by_hash, is_unused_for, expire, mark_used, used, get_by_telegram_user_id,
}
use recall_ai.Telegram.Linking.{
  create_link, new_token, outcome, redeem, bind_user, replace_prior, consume_found, consume,
}

-- The token cannot be redeemed: it is unknown, used or expired.
abbrev pub is_dead : ℕ → Option TelegramLinkToken → Bool
is_dead now none = true
is_dead now (some t) = if is_some t.used_at then true else leb t.expires_at now

pub consume_found_dead :
    (d : Draw) (i : TelegramIdentity) (o : Option TelegramLinkToken) (db : Db)
    → is_dead d.now o ≡ true
    → consume_found d i o db ≡ (outcome invalid_token, db)
unfolding consume_found
consume_found_dead d i none db h = refl
consume_found_dead d i (some t) db h = elim (Bool-cases (is_some t.used_at)) [
  | inl e ↦ rw e refl
  | inr e ↦ rw e (rw (rw e at h) refl)
]

pub consume_found_live :
    (d : Draw) (i : TelegramIdentity) (t : TelegramLinkToken) (db : Db)
    → is_dead d.now (some t) ≡ false
    → consume_found d i (some t) db
      ≡ redeem d i t (get_by_telegram_user_id i.telegram_user_id db) db
unfolding consume_found
consume_found_live d i t db h = elim (Bool-cases (is_some t.used_at)) [
  | inl e ↦ absurd (cc (rw e at h))
  | inr e ↦ rw e (rw (rw e at h) refl)
]

tokens-replace_prior :
    (o : Option TelegramAccount) (db : Db) → (replace_prior o db).tokens ≡ db.tokens
unfolding replace_prior
tokens-replace_prior none db = refl
tokens-replace_prior (some a) db = refl

-- Whatever a redemption answers, the token is used up.
tokens-redeem :
    (d : Draw) (i : TelegramIdentity) (t : TelegramLinkToken) (o : Option TelegramAccount) (db : Db)
    → (redeem d i t o db).1.tokens ≡ (mark_used d.now t db).tokens
unfolding redeem bind_user
tokens-redeem d i t none db = tokens-replace_prior _ (mark_used d.now t db)
tokens-redeem d i t (some a) db = elim (Bool-cases (a.user_id == t.user_id)) [
  | inl e ↦ rw e refl
  | inr e ↦ rw e refl
]

redeem-answer :
    (d : Draw) (i : TelegramIdentity) (t : TelegramLinkToken) (o : Option TelegramAccount) (db : Db)
    → (redeem d i t o db).0.result ≢ invalid_token
unfolding redeem bind_user
redeem-answer d i t none db = λ e. absurd (cc)
redeem-answer d i t (some a) db = elim (Bool-cases (a.user_id == t.user_id)) [
  | inl e ↦ rw e (λ h. absurd (cc))
  | inr e ↦ rw e (λ h. absurd (cc))
]

-- `consume` answers that the link is invalid exactly for a token that is unknown, used or expired,
-- and then changes nothing.
pub consume_rejects :
    (bot : Bot) (d : Draw) (raw : String) (i : TelegramIdentity) (db : Db)
    → ((consume bot d raw i db).0.result ≡ invalid_token
        ↔ (is_dead d.now (get_by_hash (bot.hash_link_token raw) db) ≡ true))
      × ((consume bot d raw i db).0.result ≡ invalid_token → (consume bot d raw i db).1 ≡ db)
unfolding consume
consume_rejects bot d raw i db =
    let found = get_by_hash (bot.hash_link_token raw) db in
    elim (Bool-cases (is_dead d.now found)) [
      | inl e ↦ rw (consume_found_dead d i found db e) ((λ _. e, λ _. refl), λ _. refl)
      | inr e ↦ elim (Option-cases found) [
        | inl n ↦ absurd (cc (rw n at e))
        | inr (t, n) ↦
            let live : is_dead d.now (some t) ≡ false = sym (ap (is_dead d.now) n) ∙ e in
            let o = get_by_telegram_user_id i.telegram_user_id db in
            rw (n, consume_found_live d i t db live)
              (
                (λ h. absurd (redeem-answer d i t o db h), λ h. absurd (cc (live, h))),
                λ h. absurd (redeem-answer d i t o db h),
              )
      ]
    ]

dead_later :
    (now later : ℕ) (o : Option TelegramLinkToken)
    → now ≤ later
    → is_dead now o ≡ true
    → is_dead later o ≡ true
dead_later now later none le h = refl
dead_later now later (some t) le h = elim (Bool-cases (is_some t.used_at)) [
  | inl e ↦ rw e refl
  | inr e ↦ let past : leb t.expires_at now ≡ true = rw e at h in rw e (ground (arith, past, le))
]

used_presented :
    (h : String) (now : ℕ) (t : TelegramLinkToken) (db : Db)
    → Distinct token_key db.tokens
    → get_by_hash h db ≡ some t
    → get_by_hash h (mark_used now t db) ≡ some (used now t)
unfolding get_by_hash mark_used
used_presented h now t db distinct e =
    find_first-save token_key (has_hash h) (used now t) db.tokens distinct e refl
      (find_first_holds (has_hash h) db.tokens e)

module _ (bot : Bot) (d : Draw) (raw : String) (i : TelegramIdentity) (db : Db) where
  -- A live token, once presented, is there as a used one.
  used_after :
      (t : TelegramLinkToken)
      → Distinct token_key db.tokens
      → get_by_hash (bot.hash_link_token raw) db ≡ some t
      → is_dead d.now (some t) ≡ false
      → get_by_hash (bot.hash_link_token raw) (consume bot d raw i db).1 ≡ some (used d.now t)
  unfolding consume
  used_after t distinct n live =
      let h = bot.hash_link_token raw in
      let o = get_by_telegram_user_id i.telegram_user_id db in
      rw (n, consume_found_live d i t db live)
        (unfold get_by_hash in
          ap (find_first (has_hash h)) (tokens-redeem d i t o db)
          ∙ used_presented h d.now t db distinct n)

  dead_after :
      (later : ℕ)
      → Distinct token_key db.tokens
      → d.now ≤ later
      → is_dead later (get_by_hash (bot.hash_link_token raw) (consume bot d raw i db).1) ≡ true
  dead_after later distinct le =
      let h = bot.hash_link_token raw in
      elim (Bool-cases (is_dead d.now (get_by_hash h db))) [
        | inl e ↦
            let same : (consume bot d raw i db).1 ≡ db =
              let r = consume_rejects bot d raw i db in r.1 (r.0.1 e) in
            ap (λ x. is_dead later (get_by_hash h x)) same ∙ dead_later d.now later _ le e
        | inr e ↦ elim (Option-cases (get_by_hash h db)) [
          | inl n ↦ absurd (cc (rw n at e))
          | inr (t, n) ↦
              let live : is_dead d.now (some t) ≡ false = sym (ap (is_dead d.now) n) ∙ e in
              ap (is_dead later) (used_after t distinct n live)
        ]
      ]

  -- After any presentation of a link token, the same token is refused at every later time, whoever
  -- presents it, and changes nothing. The ids of the tokens are distinct.
  pub consume_once :
      (d' : Draw) (i' : TelegramIdentity)
      → Distinct token_key db.tokens
      → d.now ≤ d'.now
      → consume bot d' raw i' (consume bot d raw i db).1
        ≡ (outcome invalid_token, (consume bot d raw i db).1)
  consume_once d' i' distinct le =
      let db' = (consume bot d raw i db).1 in
      let dead = dead_after d'.now distinct le in
      unfold consume in
      consume_found_dead d' i' (get_by_hash (bot.hash_link_token raw) db') db' dead

-- Whoever creates a link has exactly one that is live, also where they had others, and the live
-- links of other users stay as they are. The new row's id is new, and links live for some time.
pub create_link_unused :
    (bot : Bot) (d : Draw) (user_id : ℕ) (db : Db)
    → Fresh token_key d.row_id db.tokens
    → 0 < bot.link_token_ttl_minutes
    → (v : ℕ)
    → count_where (is_unused_for v d.now) (create_link bot d user_id db).1.tokens
      ≡ (if v == user_id then 1 else count_where (is_unused_for v d.now) db.tokens)
unfolding create_link
create_link_unused bot d user_id db fresh ttl v =
    let q = is_unused_for v d.now in
    let p = is_unused_for user_id d.now in
    let rest = update_where p (expire d.now) db.tokens in
    let row = new_token bot d user_id in
    let new : Fresh token_key d.row_id rest =
      All-update_where _ p (expire d.now) db.tokens (λ x h _. h) fresh in
    let sum : count_where q (save token_key row rest) ≡ count_where q rest + bit (q row) =
      count_where-save_new token_key q row rest new in
    elim (Bool-cases (v == user_id)) [
      | inl e ↦
          let same : v ≡ user_id = (==_iff v user_id).0 e in
          let gone : count_where q rest ≡ 0 = count_where-zero q rest (
            update_where-All (λ x. q x ≡ false) p (expire d.now) db.tokens
              (λ x h. ground (arith, h, same)) (λ x h. rw same h)) in
          let live : q row ≡ true = unfold new_token in ground (arith, same, ttl) in
          rw e (omega (arith, sum, gone, ap bit live))
      | inr e ↦
          let kept : count_where q rest ≡ count_where q db.tokens =
            count_where-update_where_same q p (expire d.now) db.tokens
              (λ x h. ground (arith, h, e)) in
          let theirs : q row ≡ false = unfold new_token in ground (arith, e) in
          rw e (omega (arith, sum, kept, ap bit theirs))
    ]

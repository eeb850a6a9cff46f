-- ===== src/Telegram/Reach.antt =====
-- The bindings over any sequence of requests, and the end of a binding.
use recall_ai.Base.{
  ℕ, String, Option, none, some, [], ◌≡◌, refl, sym, ap, ◌∙◌, arith, ◌==◌, ==_iff, ==_refl, is_some,
  find_first-none_iff, find_first_unique, All-of_count_where, count_where,
  count_where-delete_where_found, Fresh, some-injective,
}
use recall_ai.Telegram.Row.{TelegramAccount, Db, TelegramIdentity, Bot, Draw}
use recall_ai.Telegram.Repository.{account_key, speaks_as, is_of_user, get_for_user, delete_expired}
use recall_ai.Telegram.Linking.{create_link, consume, resolve, disconnect, disconnect_found}
use recall_ai.Telegram.Binding.{IsBound, delete-IsBound}
use recall_ai.Telegram.Redeem.{consume-IsBound}

disconnect_found-IsBound :
    (o : Option TelegramAccount) (db : Db)
    → IsBound db.accounts
    → IsBound (disconnect_found o db).1.accounts
unfolding disconnect_found
disconnect_found-IsBound none db h = h
disconnect_found-IsBound (some a) db h = delete-IsBound _ h

-- One request, the ids of new rows being new to their table, or the purge of old links.
pub data Step : Db → Db → Type 0 where
  creates :
      (bot : Bot) (d : Draw) (user_id : ℕ) (db : Db) → Step db (create_link bot d user_id db).1
  consumes :
      (bot : Bot) (d : Draw) (raw : String) (i : TelegramIdentity) (db : Db)
      → Fresh account_key d.row_id db.accounts
      → Step db (consume bot d raw i db).1
  disconnects : (user_id : ℕ) (db : Db) → Step db (disconnect user_id db).1
  purges : (before : ℕ) (db : Db) → Step db (delete_expired before db).1

pub data Reaches : Db → Type 0 where
  empty : Reaches (record { accounts = []; tokens = [] })
  step : {a b : Db} → Reaches a → Step a b → Reaches b

Step-IsBound : {a b : Db} → Step a b → IsBound a.accounts → IsBound b.accounts
unfolding create_link delete_expired disconnect
Step-IsBound (creates bot d user_id db) h = h
Step-IsBound (consumes bot d raw i db fresh) h = consume-IsBound bot d raw i db fresh h
Step-IsBound (disconnects user_id db) h = disconnect_found-IsBound (get_for_user user_id db) db h
Step-IsBound (purges before db) h = h

empty-IsBound : IsBound []
unfolding count_where
empty-IsBound = record {
  distinct = tt;
  one_of_user = λ u. omega arith;
  one_speaker = λ s. omega arith;
}

-- In every database that requests reach from the empty one, account ids are distinct, no user has
-- two bindings, and no Telegram identity has two: the table's unique constraint is never violated.
pub Reaches-IsBound : {db : Db} → Reaches db → IsBound db.accounts
Reaches-IsBound empty = empty-IsBound
Reaches-IsBound (step r st) = Step-IsBound st (Reaches-IsBound r)

module _ (user_id : ℕ) (db : Db) (h : IsBound db.accounts) where
  disconnected :
      (o : Option TelegramAccount)
      → get_for_user user_id db ≡ o
      → ((disconnect_found o db).0 ≡ is_some o)
        × (get_for_user user_id (disconnect_found o db).1 ≡ none)
        × ((s : String) (a : TelegramAccount)
            → resolve s db ≡ some a
            → a.user_id ≡ user_id
            → resolve s (disconnect_found o db).1 ≡ none)
  unfolding disconnect_found get_for_user resolve
  disconnected none e = (
    refl,
    e,
    λ s a held mine. absurd (
        cc (
          find_first_unique (speaks_as s) (is_of_user user_id) db.accounts (h.one_of_user user_id)
              held ((==_iff _ _).1 mine),
          e,
        )),
  )
  disconnected (some b) e =
      let gone = λ (x : TelegramAccount). x.id == b.id in
      (
        refl,
        (find_first-none_iff (is_of_user user_id) _).1 (
            All-of_count_where (is_of_user user_id) _ (
              count_where-delete_where_found (is_of_user user_id) gone db.accounts
                (h.one_of_user user_id) e (==_refl b.id))),
        λ s a held mine.
            let same : a ≡ b = some-injective _ _ (
              sym (
                find_first_unique (speaks_as s) (is_of_user user_id) db.accounts
                  (h.one_of_user user_id) held ((==_iff _ _).1 mine))
              ∙ e) in
            (find_first-none_iff (speaks_as s) _).1 (
              All-of_count_where (speaks_as s) _ (
                count_where-delete_where_found (speaks_as s) gone db.accounts (h.one_speaker s) held
                  ((==_iff _ _).1 (ap (λ (x : TelegramAccount). x.id) same)))),
      )

  -- Where bindings are one to a user and one to an identity, disconnecting answers whether the user
  -- had a binding; afterwards the user has none, and no identity that spoke for the user speaks for
  -- anybody.
  pub disconnect_unbinds :
      ((disconnect user_id db).0 ≡ is_some (get_for_user user_id db))
      × (get_for_user user_id (disconnect user_id db).1 ≡ none)
      × ((s : String) (a : TelegramAccount)
          → resolve s db ≡ some a
          → a.user_id ≡ user_id
          → resolve s (disconnect user_id db).1 ≡ none)
  unfolding disconnect
  disconnect_unbinds = disconnected (get_for_user user_id db) refl

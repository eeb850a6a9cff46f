-- ===== src/Telegram/Repository.antt =====
-- app/repositories/telegram.py.
use recall_ai.Base.{
  ℕ, String, Bool, Option, some, ◌&&◌, str_eq, ltb, ◌==◌, is_none, find_first, update_where,
  delete_where, count_where, save,
}
use recall_ai.Telegram.Row.{TelegramAccount, TelegramLinkToken, Db}

abbrev pub account_key : TelegramAccount → ℕ
account_key a = a.id

abbrev pub token_key : TelegramLinkToken → ℕ
token_key t = t.id

abbrev pub speaks_as : String → TelegramAccount → Bool
speaks_as telegram_user_id a = str_eq a.telegram_user_id telegram_user_id

abbrev pub is_of_user : ℕ → TelegramAccount → Bool
is_of_user user_id a = a.user_id == user_id

unfoldable pub get_by_telegram_user_id : String → Db → Option TelegramAccount
get_by_telegram_user_id telegram_user_id db = find_first (speaks_as telegram_user_id) db.accounts

unfoldable pub get_for_user : ℕ → Db → Option TelegramAccount
get_for_user user_id db = find_first (is_of_user user_id) db.accounts

unfoldable pub add_account : TelegramAccount → Db → Db
add_account a db = record db { accounts = save account_key a db.accounts }

unfoldable pub delete_account : TelegramAccount → Db → Db
delete_account a db = record db { accounts = delete_where (λ x. x.id == a.id) db.accounts }

unfoldable pub add_token : TelegramLinkToken → Db → Db
add_token t db = record db { tokens = save token_key t db.tokens }

abbrev pub has_hash : String → TelegramLinkToken → Bool
has_hash h t = str_eq t.token_hash h

unfoldable pub get_by_hash : String → Db → Option TelegramLinkToken
get_by_hash h db = find_first (has_hash h) db.tokens

-- A link that could still be redeemed by its user.
abbrev pub is_unused_for : ℕ → ℕ → TelegramLinkToken → Bool
is_unused_for user_id now t = t.user_id == user_id && (is_none t.used_at && ltb now t.expires_at)

abbrev pub expire : ℕ → TelegramLinkToken → TelegramLinkToken
expire now t = record t { expires_at = now }

-- The rowcount, and the database.
unfoldable pub invalidate_unused_for_user : ℕ → ℕ → Db → ℕ × Db
invalidate_unused_for_user user_id now db = (
  count_where (is_unused_for user_id now) db.tokens,
  record db { tokens = update_where (is_unused_for user_id now) (expire now) db.tokens },
)

abbrev pub used : ℕ → TelegramLinkToken → TelegramLinkToken
used now t = record t { used_at = some now }

unfoldable pub mark_used : ℕ → TelegramLinkToken → Db → Db
mark_used now t db = record db { tokens = save token_key (used now t) db.tokens }

unfoldable pub delete_expired : ℕ → Db → ℕ × Db
delete_expired before db = (
  count_where (λ t. ltb t.expires_at before) db.tokens,
  record db { tokens = delete_where (λ t. ltb t.expires_at before) db.tokens },
)

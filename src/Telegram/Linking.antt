-- ===== src/Telegram/Linking.antt =====
-- app/services/telegram/linking.py: the link a user is given, its redemption by the bot, and the end
-- of a binding.
use recall_ai.Base.{
  ℕ, ◌+◌, ◌*◌, String, Bool, true, false, not, Option, none, some, str_eq, ◌==◌, leb, is_some,
  if◌then◌else◌, take_chars, text_append,
}
use recall_ai.Telegram.Row.{
  TelegramAccount, TelegramLinkToken, Db, TelegramIdentity, Field, text, other, Sender, Message,
  LinkResult, linked, already_linked, invalid_token, taken_by_other_user, LinkOutcome, IssuedLink,
  Bot, Draw, minutes,
}
use recall_ai.Telegram.Repository.{
  get_by_telegram_user_id, get_for_user, add_account, delete_account, add_token, get_by_hash,
  invalidate_unused_for_user, mark_used,
}

-- `strip` is the method of `str`.
unfoldable pub text_or_none : (String → String) → Field → Option String
text_or_none strip other = none
text_or_none strip (text value) =
    let kept = take_chars 200 (strip value) in if str_eq kept "" then none else some kept

abbrev pub identity_of : (String → String) → Sender → String → String → TelegramIdentity
unfolding text_or_none
identity_of strip s sender_id chat = record {
  telegram_user_id = sender_id;
  chat_id = chat;
  username = text_or_none strip s.username;
  first_name = text_or_none strip s.first_name;
  last_name = text_or_none strip s.last_name;
  language_code = text_or_none strip s.language_code;
}

unfoldable pub identity_known :
    (String → String) → Sender → Option String → Option String → Option TelegramIdentity
identity_known strip s (some sender_id) (some chat) = some (identity_of strip s sender_id chat)
identity_known strip s (some sender_id) none = none
identity_known strip s none chat = none

unfoldable pub from_update : (String → String) → Message → Option TelegramIdentity
unfolding identity_known
from_update strip m = identity_known strip m.sender m.sender.id m.chat_id

unfoldable pub new_token : Bot → Draw → ℕ → TelegramLinkToken
new_token bot d user_id = record {
  id = d.row_id;
  user_id = user_id;
  token_hash = bot.hash_link_token d.raw;
  expires_at = d.now + minutes bot.link_token_ttl_minutes;
  used_at = none;
  created_at = d.created;
}

unfoldable pub create_link : Bot → Draw → ℕ → Db → IssuedLink × Db
unfolding new_token invalidate_unused_for_user add_token
create_link bot d user_id db = (
  record {
    deep_link =
        text_append "https://t.me/" (text_append bot.bot_username (text_append "?start=" d.raw));
    expires_at = d.now + minutes bot.link_token_ttl_minutes;
    expires_in = 60 * bot.link_token_ttl_minutes;
  },
  add_token (new_token bot d user_id) (invalidate_unused_for_user user_id d.now db).1,
)

-- `_apply`.
abbrev pub apply : TelegramIdentity → ℕ → TelegramAccount → TelegramAccount
apply i now a = record a {
  telegram_chat_id = i.chat_id;
  username = i.username;
  first_name = i.first_name;
  last_name = i.last_name;
  language_code = i.language_code;
  linked_at = now;
  updated_at = now;
}

abbrev pub outcome : LinkResult → LinkOutcome
outcome r = record { result = r; account = none }

abbrev pub outcome_with : LinkResult → TelegramAccount → LinkOutcome
outcome_with r a = record { result = r; account = some a }

abbrev pub new_account : Draw → TelegramIdentity → ℕ → TelegramAccount
new_account d i user_id = record {
  id = d.row_id;
  user_id = user_id;
  telegram_user_id = i.telegram_user_id;
  telegram_chat_id = i.chat_id;
  username = none;
  first_name = none;
  last_name = none;
  language_code = none;
  linked_at = d.created;
  created_at = d.created;
  updated_at = d.created;
}

-- The user's prior binding goes before the new one is written.
unfoldable pub replace_prior : Option TelegramAccount → Db → Db
unfolding delete_account
replace_prior none db = db
replace_prior (some prior) db = delete_account prior db

unfoldable pub bind_user : Draw → TelegramIdentity → ℕ → Db → LinkOutcome × Db
unfolding replace_prior get_for_user add_account
bind_user d i user_id db =
    let a = apply i d.now (new_account d i user_id) in
    (outcome_with linked a, add_account a (replace_prior (get_for_user user_id db) db))

-- The token is live; `existing` is the identity's binding.
unfoldable pub redeem :
    Draw → TelegramIdentity → TelegramLinkToken → Option TelegramAccount → Db → LinkOutcome × Db
unfolding mark_used bind_user add_account
redeem d i row none db = bind_user d i row.user_id (mark_used d.now row db)
redeem d i row (some existing) db =
    let db' = mark_used d.now row db in
    if not (existing.user_id == row.user_id) then (outcome taken_by_other_user, db') else (
      outcome_with already_linked (apply i d.now existing),
      add_account (apply i d.now existing) db',
    )

unfoldable pub consume_found :
    Draw → TelegramIdentity → Option TelegramLinkToken → Db → LinkOutcome × Db
unfolding redeem get_by_telegram_user_id
consume_found d i none db = (outcome invalid_token, db)
consume_found d i (some row) db =
    if is_some row.used_at
    then (outcome invalid_token, db)
    else if leb row.expires_at d.now
    then (outcome invalid_token, db)
    else redeem d i row (get_by_telegram_user_id i.telegram_user_id db) db

unfoldable pub consume : Bot → Draw → String → TelegramIdentity → Db → LinkOutcome × Db
unfolding consume_found get_by_hash
consume bot d raw_token i db = consume_found d i (get_by_hash (bot.hash_link_token raw_token) db) db

unfoldable pub resolve : String → Db → Option TelegramAccount
unfolding get_by_telegram_user_id
resolve telegram_user_id db = get_by_telegram_user_id telegram_user_id db

unfoldable pub disconnect_found : Option TelegramAccount → Db → Bool × Db
unfolding delete_account
disconnect_found none db = (false, db)
disconnect_found (some a) db = (true, delete_account a db)

unfoldable pub disconnect : ℕ → Db → Bool × Db
unfolding disconnect_found get_for_user
disconnect user_id db = disconnect_found (get_for_user user_id db) db

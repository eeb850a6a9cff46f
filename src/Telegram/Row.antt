-- ===== src/Telegram/Row.antt =====
-- The rows of app/models/telegram.py, the sender of an update, and what one request draws. A UUID
-- is the number that it encodes, an instant a number of microseconds.
use recall_ai.Base.{ℕ, ◌*◌, String, Option, List}

pub record TelegramAccount : Type 0 where
  pub id : ℕ
  pub user_id : ℕ
  pub telegram_user_id : String
  pub telegram_chat_id : String
  pub username : Option String
  pub first_name : Option String
  pub last_name : Option String
  pub language_code : Option String
  pub linked_at : ℕ
  pub created_at : ℕ
  pub updated_at : ℕ

pub record TelegramLinkToken : Type 0 where
  pub id : ℕ
  pub user_id : ℕ
  pub token_hash : String
  pub expires_at : ℕ
  pub used_at : Option ℕ
  pub created_at : ℕ

pub record Db : Type 0 where
  pub accounts : List TelegramAccount
  pub tokens : List TelegramLinkToken

-- The `from` object of a Telegram update, narrowed to what is stored.
pub record TelegramIdentity : Type 0 where
  pub telegram_user_id : String
  pub chat_id : String
  pub username : Option String
  pub first_name : Option String
  pub last_name : Option String
  pub language_code : Option String

-- A value of an update's object: a text, or anything else, a missing key included.
pub data Field : Type 0 where
  text : String → Field
  other : Field

-- The `from` object. The id is the text that `str` makes of it.
pub record Sender : Type 0 where
  pub id : Option String
  pub username : Field
  pub first_name : Field
  pub last_name : Field
  pub language_code : Field

pub record Message : Type 0 where
  pub sender : Sender
  pub chat_id : Option String

pub data LinkResult : Type 0 where
  linked already_linked invalid_token taken_by_other_user : LinkResult

pub record LinkOutcome : Type 0 where
  pub result : LinkResult
  pub account : Option TelegramAccount

pub record IssuedLink : Type 0 where
  pub deep_link : String
  pub expires_at : ℕ
  pub expires_in : ℕ

-- The settings, and `hash_link_token`, the SHA-256 digest in hexadecimal.
pub record Bot : Type 0 where
  pub link_token_ttl_minutes : ℕ
  pub bot_username : String
  pub hash_link_token : String → String

-- The clock reading of one request, those of the new row's defaults, and the random values.
pub record Draw : Type 0 where
  pub now : ℕ
  pub created : ℕ
  pub row_id : ℕ
  pub raw : String

abbrev pub minutes : ℕ → ℕ
minutes n = n * 60_000_000

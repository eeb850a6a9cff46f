-- ===== src/Session/Row.antt =====
-- The `user_sessions` row, the configuration, and what one request draws from its surroundings.
-- An instant is a number of microseconds, and a UUID is the number that it encodes. Columns are
-- `timestamptz`, so `_aware` of app/services/session_service.py changes nothing here.
use recall_ai.Base.{ℕ, ◌*◌, String, Option}

pub record UserSession : Type 0 where
  pub id : ℕ
  pub user_id : ℕ
  pub family_id : ℕ
  pub token_hash : String
  pub expires_at : ℕ
  pub family_started_at : ℕ
  pub revoked_at : Option ℕ
  pub revoked_reason : Option String
  pub replaced_by_id : Option ℕ
  pub user_agent : Option String
  pub ip_address : Option String
  pub last_used_at : ℕ
  pub created_at : ℕ

-- The columns of `users` that a session reads.
pub record User : Type 0 where
  pub id : ℕ
  pub deleted_at : Option ℕ

pub record Config : Type 0 where
  pub refresh_token_expire_days : ℕ
  pub refresh_token_absolute_days : ℕ
  pub access_token_expire_minutes : ℕ

-- The payload of an access token.
pub record Claims : Type 0 where
  pub sub : String
  pub sid : String
  pub typ : String
  pub jti : String
  pub iat : ℕ
  pub exp : ℕ

-- Code of other packages: `hashlib.sha256(…).hexdigest()`, `jwt.encode` with the configured key and
-- algorithm, and `str` of a UUID.
pub record Crypto : Type 0 where
  pub sha256_hex : String → String
  pub jwt_encode : Claims → String
  pub uuid_text : ℕ → String

-- The clock readings of one request, each its own, and its random values.
pub record Draw : Type 0 where
  pub now : ℕ
  pub issue_now : ℕ
  pub token_now : ℕ
  pub revoke_now : ℕ
  pub row_id : ℕ
  pub family_id : ℕ
  pub raw : String
  pub jti : String

abbrev pub seconds : ℕ → ℕ
seconds n = n * 1_000_000

abbrev pub minutes : ℕ → ℕ
minutes n = n * 60_000_000

abbrev pub days : ℕ → ℕ
days n = n * 86_400_000_000

-- ===== src/Auth/Model.antt =====
-- The rows of the authentication tables (nestjs-project/src/auth/entities,
-- nestjs-project/src/users/entities), the settings of config/auth.config.ts and config/app.config.ts,
-- and the libraries that auth.service.ts calls. Identifiers and digests are only compared, so they
-- are numbers; times are milliseconds.
use videum_video_platform.Common.{ℕ, Bool, List, Option, Text}
use videum_video_platform.Channels.Channel.{Channel}
use videum_video_platform.Mail.{Mail}

pub record User : Type 0 where
  pub id : ℕ
  pub email : Text
  -- the argon2 digest
  pub password : Text
  pub is_confirmed : Bool

pub data VerificationTokenType : Type 0 where
  email_confirmation password_reset : VerificationTokenType

pub record VerificationToken : Type 0 where
  pub id : ℕ
  pub token_hash : ℕ
  pub type : VerificationTokenType
  pub user_id : ℕ
  pub expires_at : ℕ
  pub used_at : Option ℕ

pub record RefreshToken : Type 0 where
  pub id : ℕ
  pub token_hash : ℕ
  pub family : ℕ
  pub user_id : ℕ
  pub expires_at : ℕ
  pub revoked_at : Option ℕ

-- The tables that the services read and write, and the mails sent.
pub record AuthDb : Type 0 where
  pub users : List User
  pub channels : List Channel
  pub verification_tokens : List VerificationToken
  pub refresh_tokens : List RefreshToken
  pub outbox : List Mail

pub record AuthConfig : Type 0 where
  pub jwt_refresh_secret : Text
  pub jwt_access_expiration : Text
  pub jwt_refresh_expiration : Text
  pub confirmation_token_expiration_hours : ℕ
  pub password_reset_token_expiration_hours : ℕ
  pub app_url : Text

-- `argon2`, `JwtService` and `crypto.createHash('sha256')`. The salt and the time of issue, which
-- the libraries draw themselves, are arguments.
pub record Crypto : Type 0 where
  -- salt, password
  pub argon2_hash : ℕ → Text → Text
  -- digest, password
  pub argon2_verify : Text → Text → Bool
  pub sha256 : Text → ℕ
  -- subject, email, lifetime, time of issue
  pub sign_access : ℕ → Text → Text → ℕ → Text
  -- subject, family, jti, secret, lifetime, time of issue
  pub sign_refresh : ℕ → ℕ → ℕ → Text → Text → ℕ → Text

-- What one request draws from its surroundings: the clock, read up to three times, fresh
-- identifiers and random texts, and whether the mailer accepts the request's mail.
pub record Env : Type 0 where
  pub now : ℕ
  pub later : ℕ
  pub latest : ℕ
  -- `crypto.randomUUID()` for a family and for a `jti`
  pub family : ℕ
  pub jti : ℕ
  -- the identifiers that the database gives to new rows
  pub user_id : ℕ
  pub row_id : ℕ
  -- `crypto.randomBytes(32).toString('hex')`
  pub raw_token : Text
  pub salt : ℕ
  pub mail_accepted : Bool

pub record TokenPair : Type 0 where
  pub access_token : Text
  pub refresh_token : Text

-- ===== src/Config/Settings.antt =====
-- The settings that nestjs-project/src/config/storage.config.ts, queue.config.ts, mail.config.ts,
-- database.config.ts, auth.config.ts and app.config.ts read.
use videum_video_platform.Common.{Option, Text, codes}
use videum_video_platform.Config.{Environment, or_else, if_undefined, ParsedInt, int_setting}

pub record StorageSettings : Type 0 where
  pub endpoint : Text
  pub public_endpoint : Text
  pub region : Text
  pub access_key_id : Text
  pub secret_access_key : Text
  pub bucket : Text
  pub part_size_bytes : ParsedInt
  pub presign_expiry_seconds : ParsedInt

unfoldable pub storage_settings : Environment → StorageSettings
unfolding int_setting
storage_settings env = record {
  endpoint = or_else (env (codes "STORAGE_ENDPOINT")) (codes "http://minio:9000");
  public_endpoint = or_else (env (codes "STORAGE_PUBLIC_ENDPOINT")) (codes "http://localhost:9000");
  region = or_else (env (codes "STORAGE_REGION")) (codes "us-east-1");
  access_key_id = or_else (env (codes "STORAGE_ACCESS_KEY")) (codes "minioadmin");
  secret_access_key = or_else (env (codes "STORAGE_SECRET_KEY")) (codes "minioadmin");
  bucket = or_else (env (codes "STORAGE_BUCKET")) (codes "videos");
  part_size_bytes = int_setting (env (codes "STORAGE_PART_SIZE_BYTES")) (codes "104857600");
  presign_expiry_seconds =
      int_setting (env (codes "STORAGE_PRESIGN_EXPIRY_SECONDS")) (codes "3600");
}

pub record QueueSettings : Type 0 where
  pub host : Text
  pub port : ParsedInt
  pub reconciliation_interval_ms : ParsedInt
  pub abandoned_upload_timeout_ms : ParsedInt

unfoldable pub queue_settings : Environment → QueueSettings
unfolding int_setting
queue_settings env = record {
  host = or_else (env (codes "REDIS_HOST")) (codes "redis");
  port = int_setting (env (codes "REDIS_PORT")) (codes "6379");
  reconciliation_interval_ms =
      int_setting (env (codes "RECONCILIATION_INTERVAL_MS")) (codes "300000");
  abandoned_upload_timeout_ms =
      int_setting (env (codes "ABANDONED_UPLOAD_TIMEOUT_MS")) (codes "3600000");
}

pub record MailSettings : Type 0 where
  pub host : Text
  pub port : ParsedInt
  pub from : Text

unfoldable pub mail_settings : Environment → MailSettings
unfolding int_setting
mail_settings env = record {
  host = or_else (env (codes "MAIL_HOST")) (codes "mailpit");
  port = int_setting (env (codes "MAIL_PORT")) (codes "1025");
  from = or_else (env (codes "MAIL_FROM")) (codes "\"StreamTube\" <noreply@streamtube.com>");
}

pub record DatabaseSettings : Type 0 where
  pub host : Text
  pub port : ParsedInt
  pub username : Text
  pub password : Text
  pub name : Text

unfoldable pub database_settings : Environment → DatabaseSettings
unfolding int_setting
database_settings env = record {
  host = or_else (env (codes "DB_HOST")) (codes "localhost");
  port = int_setting (env (codes "DB_PORT")) (codes "5432");
  username = or_else (env (codes "DB_USERNAME")) (codes "streamtube");
  password = or_else (env (codes "DB_PASSWORD")) (codes "streamtube");
  name = or_else (env (codes "DB_NAME")) (codes "streamtube");
}

pub record AuthSettings : Type 0 where
  pub jwt_secret : Option Text
  pub jwt_refresh_secret : Option Text
  pub jwt_access_expiration : Text
  pub jwt_refresh_expiration : Text
  pub confirmation_token_expiration_hours : ParsedInt
  pub password_reset_token_expiration_hours : ParsedInt

unfoldable pub auth_settings : Environment → AuthSettings
unfolding int_setting
auth_settings env = record {
  jwt_secret = env (codes "JWT_SECRET");
  jwt_refresh_secret = env (codes "JWT_REFRESH_SECRET");
  jwt_access_expiration = or_else (env (codes "JWT_ACCESS_EXPIRATION")) (codes "15m");
  jwt_refresh_expiration = or_else (env (codes "JWT_REFRESH_EXPIRATION")) (codes "7d");
  confirmation_token_expiration_hours =
      int_setting (env (codes "CONFIRMATION_TOKEN_EXPIRATION_HOURS")) (codes "1");
  password_reset_token_expiration_hours =
      int_setting (env (codes "PASSWORD_RESET_TOKEN_EXPIRATION_HOURS")) (codes "1");
}

pub record AppSettings : Type 0 where
  pub port : ParsedInt
  pub node_env : Text
  pub url : Text

unfoldable pub app_settings : Environment → AppSettings
unfolding int_setting
app_settings env = record {
  port = int_setting (env (codes "PORT")) (codes "3000");
  node_env = or_else (env (codes "NODE_ENV")) (codes "development");
  url = if_undefined (env (codes "APP_URL")) (codes "http://localhost:3000");
}

-- ===== src/Config/Validation.antt =====
-- The schema of nestjs-project/src/config/env.validation.ts. What Joi accepts as a text, a number or
-- a URI is not modelled.
use videum_video_platform.Common.{
  ◌≡◌, ◌⊎◌, List, [], ◌∷◌, Option, none, some, Text, codes, text_eq, find_one,
}
use videum_video_platform.Config.{Environment}

pub data Rule : Type 0 where
  string_rule number_rule : Rule
  one_of : List Text → Rule
  uri port : Rule

pub data Presence : Type 0 where
  required : Presence
  default : Text → Presence

pub record Key : Type 0 where
  pub name : Text
  pub rule : Rule
  pub presence : Presence

abbrev pub key : Text → Rule → Presence → Key
key name rule presence = record { name = name; rule = rule; presence = presence }

-- `envValidationSchema`; the defaults of numbers as `process.env` has them.
abbrev pub env_validation_schema : List Key
env_validation_schema =
    key (codes "NODE_ENV") (one_of (codes "development" ∷ codes "production" ∷ codes "test" ∷ []))
      (default (codes "development"))
    ∷ key (codes "PORT") port (default (codes "3000"))
    ∷ key (codes "DB_HOST") string_rule (default (codes "localhost"))
    ∷ key (codes "DB_PORT") number_rule (default (codes "5432"))
    ∷ key (codes "DB_USERNAME") string_rule required
    ∷ key (codes "DB_PASSWORD") string_rule required
    ∷ key (codes "DB_NAME") string_rule required
    ∷ key (codes "JWT_SECRET") string_rule required
    ∷ key (codes "JWT_REFRESH_SECRET") string_rule required
    ∷ key (codes "JWT_ACCESS_EXPIRATION") string_rule (default (codes "15m"))
    ∷ key (codes "JWT_REFRESH_EXPIRATION") string_rule (default (codes "7d"))
    ∷ key (codes "CONFIRMATION_TOKEN_EXPIRATION_HOURS") number_rule (default (codes "1"))
    ∷ key (codes "PASSWORD_RESET_TOKEN_EXPIRATION_HOURS") number_rule (default (codes "1"))
    ∷ key (codes "APP_URL") uri (default (codes "http://localhost:3000"))
    ∷ key (codes "MAIL_HOST") string_rule (default (codes "mailpit"))
    ∷ key (codes "MAIL_PORT") number_rule (default (codes "1025"))
    ∷ key (codes "MAIL_FROM") string_rule
        (default (codes "\"StreamTube\" <noreply@streamtube.com>"))
    ∷ key (codes "SWAGGER_ENABLED") (one_of (codes "true" ∷ codes "false" ∷ []))
        (default (codes "false"))
    ∷ key (codes "STORAGE_ENDPOINT") uri (default (codes "http://minio:9000"))
    ∷ key (codes "STORAGE_PUBLIC_ENDPOINT") uri (default (codes "http://localhost:9000"))
    ∷ key (codes "STORAGE_REGION") string_rule (default (codes "us-east-1"))
    ∷ key (codes "STORAGE_ACCESS_KEY") string_rule (default (codes "minioadmin"))
    ∷ key (codes "STORAGE_SECRET_KEY") string_rule (default (codes "minioadmin"))
    ∷ key (codes "STORAGE_BUCKET") string_rule (default (codes "videos"))
    ∷ key (codes "STORAGE_PART_SIZE_BYTES") number_rule (default (codes "104857600"))
    ∷ key (codes "STORAGE_PRESIGN_EXPIRY_SECONDS") number_rule (default (codes "3600"))
    ∷ key (codes "REDIS_HOST") string_rule (default (codes "redis"))
    ∷ key (codes "REDIS_PORT") number_rule (default (codes "6379"))
    ∷ key (codes "RECONCILIATION_INTERVAL_MS") number_rule (default (codes "300000"))
    ∷ key (codes "ABANDONED_UPLOAD_TIMEOUT_MS") number_rule (default (codes "3600000"))
    ∷ []

abbrev default_of_presence : Presence → Option Text
default_of_presence required = none
default_of_presence (default text) = some text

abbrev default_in : Option Key → Option Text
default_in none = none
default_in (some k) = default_of_presence k.presence

-- What the validation puts in the place of a variable that is not set.
unfoldable pub default_of : Environment
unfolding find_one
default_of name = default_in (find_one (λ k. text_eq k.name name) env_validation_schema)

-- The second environment is the first one after the validation: a variable that was set is as it
-- was, and one that was not has its default or, where the framework does not write it back, nothing.
unfoldable pub IsFilled : Environment → Environment → Type 0
IsFilled env filled =
    (name : Text) → (filled name ≡ env name) ⊎ ((env name ≡ none) × (filled name ≡ default_of name))

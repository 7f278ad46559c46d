-- ===== src/Tests/AuthTests.antt =====
-- The theorems on sessions, at a database with one user and concrete stand-ins for the libraries.
use videum_video_platform.Common.{
  ℕ, ◌+◌, ◌*◌, ◌≡◌, refl, ◌≢◌, true, List, [], ◌∷◌, none, some, Text, codes, text_eq, find_one,
  update_where, ok, err, Action, internal, token_reuse_detected, arith,
}
use videum_video_platform.Channels.Channel.{Channel}
use videum_video_platform.Auth.Model.{
  User, RefreshToken, AuthDb, AuthConfig, Crypto, Env, TokenPair,
}
use videum_video_platform.Auth.Sessions.{
  refresh, logout, login, generate_access_token, generate_refresh_token, user_of,
  is_active_in_family, revoke,
}
use videum_video_platform.Auth.Sessions.Rotation.{grace_token-IsReuse}
use videum_video_platform.Users.{find_by_email}
use videum_video_platform.Auth.Requests.{log_in, log_out, refresh_tokens, run, run_all}
use videum_video_platform.Auth.Requests.Spec.{SessionStep, run-SessionStep}
use videum_video_platform.Auth.Requests.Finality.{refresh-after_logout, refresh-after_reuse}

-- A digest that keeps short texts apart.
abbrev pub digest : Text → ℕ
digest [] = 1
digest (c ∷ s) = c + 65536 * digest s

abbrev pub crypto : Crypto
crypto = record {
  argon2_hash = λ salt password. salt ∷ password;
  argon2_verify = λ stored password. text_eq stored (7 ∷ password);
  sha256 = digest;
  sign_access = λ user email lifetime time. user ∷ time ∷ [];
  sign_refresh = λ user family jti secret lifetime time. user ∷ family ∷ jti ∷ [];
}

abbrev pub config : AuthConfig
config = record {
  jwt_refresh_secret = codes "secret";
  jwt_access_expiration = codes "15m";
  jwt_refresh_expiration = codes "7d";
  confirmation_token_expiration_hours = 1;
  password_reset_token_expiration_hours = 1;
  app_url = codes "http://localhost:3000";
}

abbrev pub env_at : ℕ → ℕ → Env
env_at time n = record {
  now = time;
  later = time + 1;
  latest = time + 2;
  family = 100 + n;
  jti = 200 + n;
  user_id = 300 + n;
  row_id = 400 + n;
  raw_token = (500 + n) ∷ [];
  salt = 7;
  mail_accepted = true;
}

abbrev pub ann : User
ann = record {
  id = 1;
  email = codes "ann@x.org";
  password = 7 ∷ codes "secret99";
  is_confirmed = true;
}

abbrev pub ann_token : RefreshToken
ann_token = record {
  id = 10;
  token_hash = 65538;
  family = 20;
  user_id = 1;
  expires_at = 1000000;
  revoked_at = none;
}

abbrev pub db : AuthDb
db = record {
  users = ann ∷ [];
  channels = [];
  verification_tokens = [];
  refresh_tokens = ann_token ∷ [];
  outbox = [];
}

abbrev pub no_channel : ℕ → Text → Action (List Channel) Channel
no_channel user_id email channels = (err internal, channels)

login-run :
    (login crypto config (env_at 50 1) (codes "ann@x.org") (codes "secret99") db).0
    ≡ ok (record { access_token = 1 ∷ 50 ∷ []; refresh_token = 1 ∷ 101 ∷ 201 ∷ [] })
unfolding login text_eq find_one find_by_email generate_access_token generate_refresh_token
login-run = refl

-- A replay after the logout, with the token of Ann.
refresh-after_logout_example :
    (refresh crypto config (env_at 60 3) (2 ∷ []) (
      run_all crypto config no_channel
        (refresh_tokens (env_at 55 2) (2 ∷ []) ∷ [])
        (logout (env_at 50 1) 1 db).1)).0
    ≢ ok (record { access_token = []; refresh_token = [] })
unfolding logout run_all refresh find_one update_where
refresh-after_logout_example =
    refresh-after_logout crypto config no_channel (env_at 50 1) 1 db (λ f. 1)
      (refresh_tokens (env_at 55 2) (2 ∷ []) ∷ []) (env_at 60 3) (2 ∷ [])
      (record ann_token { revoked_at = some 52 }) (record { access_token = []; refresh_token = [] })
      (refl, tt) ((λ p. cc), tt, tt) refl refl

-- After the reuse at 20050 of the token that was revoked at 1000, its successor is refused.
abbrev pub reused_db : AuthDb
reused_db = record db {
  refresh_tokens =
      record ann_token { revoked_at = some 1000 }
      ∷ record {
        id = 11;
        token_hash = 65539;
        family = 20;
        user_id = 1;
        expires_at = 1000000;
        revoked_at = none;
      }
      ∷ [];
}

refresh-after_reuse_example :
    (refresh crypto config (env_at 20060 3) (3 ∷ []) (
      run_all crypto config no_channel
        (log_out (env_at 20055 2) 9 ∷ [])
        (refresh crypto config (env_at 20050 1) (2 ∷ []) reused_db).1)).0
    ≢ ok (record { access_token = []; refresh_token = [] })
unfolding logout run_all refresh find_one update_where
refresh-after_reuse_example =
    refresh-after_reuse crypto config no_channel (env_at 20050 1) (2 ∷ []) reused_db
      (record ann_token { revoked_at = some 1000 }) (log_out (env_at 20055 2) 9 ∷ [])
      (env_at 20060 3) (3 ∷ [])
      (record {
        id = 11;
        token_hash = 65539;
        family = 20;
        user_id = 1;
        expires_at = 1000000;
        revoked_at = some 20050;
      })
      (record { access_token = []; refresh_token = [] }) refl refl ((λ p. cc), tt) refl refl

run-SessionStep_example :
    SessionStep
      (some 1)
      (some 101)
      (ann_token ∷ [])
      (run crypto config no_channel
        (log_in (env_at 50 1) (codes "ann@x.org") (codes "secret99"))
        db).refresh_tokens
unfolding find_by_email find_one text_eq
run-SessionStep_example =
    run-SessionStep crypto config no_channel
      (log_in (env_at 50 1) (codes "ann@x.org") (codes "secret99")) db

grace_token-IsReuse_example :
    (pair : TokenPair) × (refresh crypto config (env_at 5000 1) (2 ∷ []) reused_db
      ≡ (ok pair, reused_db))
    × (refresh crypto config (env_at 12000 2) pair.refresh_token reused_db ≡ (
      err token_reuse_detected,
      record reused_db {
        refresh_tokens =
            update_where (is_active_in_family 20) (revoke 12000) reused_db.refresh_tokens;
      },
    ))
unfolding find_one user_of
grace_token-IsReuse_example =
    grace_token-IsReuse crypto config (env_at 5000 1) (env_at 12000 2) (2 ∷ []) reused_db
      (record ann_token { revoked_at = some 1000 }) ann 1000 refl refl refl refl (omega arith)
      (omega arith) (omega arith) (omega arith)

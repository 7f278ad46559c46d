-- ===== src/Auth/Sessions.antt =====
-- The sessions of nestjs-project/src/auth/auth.service.ts: `login`, `refresh`, `logout` and the
-- signing of tokens.
pub mod Rotation
pub mod Login
use videum_video_platform.Common.{
  ℕ, ◌+◌, ◌-◌, Bool, false, ◌&&◌, not, Option, none, some, Text, Action, ◌>>=◌, ◌>>◌, pure, throw,
  throw_if, or_throw, gets, modify, invalid_credentials, email_not_confirmed, invalid_token,
  token_expired, token_reuse_detected, internal, find_one, update_where, insert, is_some, ltb, leb,
  ◌==◌, if◌then◌else◌,
}
use videum_video_platform.Auth.Model.{
  User, RefreshToken, AuthDb, AuthConfig, Crypto, Env, TokenPair,
}
use videum_video_platform.Auth.Duration.{jwt_expiration_to_ms}
use videum_video_platform.Users.{has_id, find_by_email}

-- `TOKEN_REUSE_GRACE_PERIOD_MS`
abbrev pub token_reuse_grace_period_ms : ℕ
token_reuse_grace_period_ms = 10000

-- `revoked_at IS NULL`
abbrev pub is_active : RefreshToken → Bool
is_active r = not (is_some r.revoked_at)

abbrev pub has_token_hash : ℕ → RefreshToken → Bool
has_token_hash h r = r.token_hash == h

-- `family = :family AND revoked_at IS NULL`
abbrev pub is_active_in_family : ℕ → RefreshToken → Bool
is_active_in_family family r = r.family == family && is_active r

-- `user_id = :userId AND revoked_at IS NULL`
abbrev pub is_active_of_user : ℕ → RefreshToken → Bool
is_active_of_user user_id r = r.user_id == user_id && is_active r

abbrev pub revoke : ℕ → RefreshToken → RefreshToken
revoke time r = record r { revoked_at = some time }

-- `update(RefreshToken).set({ revoked_at: time }).where(condition)`
unfoldable pub revoke_where : (RefreshToken → Bool) → ℕ → AuthDb → AuthDb
revoke_where p time db = record db {
  refresh_tokens = update_where p (revoke time) db.refresh_tokens;
}

unfoldable pub insert_refresh_token : RefreshToken → AuthDb → AuthDb
insert_refresh_token r db = record db { refresh_tokens = insert r db.refresh_tokens }

-- The relation `user` of a token's row.
unfoldable pub user_of : ℕ → AuthDb → Option User
user_of id db = find_one (has_id id) db.users

-- `logout`
unfoldable pub logout : Env → ℕ → Action AuthDb (Unit {0})
unfolding revoke_where
logout e user_id = modify (revoke_where (is_active_of_user user_id) e.latest)

module _ (k : Crypto) (cfg : AuthConfig) where
  -- `generateAccessToken`
  unfoldable pub generate_access_token : Env → ℕ → Text → Text
  generate_access_token e user_id email =
      k.sign_access user_id email cfg.jwt_access_expiration e.now

  -- `generateRefreshToken`
  unfoldable pub generate_refresh_token : Env → ℕ → ℕ → Text
  generate_refresh_token e user_id family =
      k.sign_refresh user_id family e.jti cfg.jwt_refresh_secret cfg.jwt_refresh_expiration e.now

  -- The row that `login` and `refresh` create for a refresh token.
  unfoldable pub new_refresh_token : Env → Text → ℕ → ℕ → RefreshToken
  new_refresh_token e raw family user_id = record {
    id = e.row_id;
    token_hash = k.sha256 raw;
    family = family;
    user_id = user_id;
    expires_at = e.now + jwt_expiration_to_ms cfg.jwt_refresh_expiration;
    revoked_at = none;
  }

  -- `login`
  unfoldable pub login : Env → Text → Text → Action AuthDb TokenPair
  unfolding generate_access_token generate_refresh_token new_refresh_token insert_refresh_token
  login e email password = do
    found ← gets (find_by_email email)
    user ← or_throw found invalid_credentials
    throw_if (not (k.argon2_verify user.password password)) invalid_credentials
    throw_if (not user.is_confirmed) email_not_confirmed
    let raw = generate_refresh_token e user.id e.family
    modify (insert_refresh_token (new_refresh_token e raw e.family user.id))
    pure (record { access_token = generate_access_token e user.id user.email; refresh_token = raw })

  -- The answer of `refresh`, with the access token of the row's user.
  unfoldable pub answer_refresh : Env → RefreshToken → Text → Action AuthDb TokenPair
  unfolding generate_access_token user_of
  answer_refresh e r raw = do
    found ← gets (user_of r.user_id)
    user ← or_throw found internal
    pure (record {
      access_token = generate_access_token e r.user_id user.email;
      refresh_token = raw;
    })

  -- `refresh` at a token that was revoked at the given time.
  unfoldable pub refresh_revoked : Env → Text → RefreshToken → ℕ → Action AuthDb TokenPair
  unfolding answer_refresh revoke_where
  refresh_revoked e raw r revoked_at =
      if leb (e.now - revoked_at) token_reuse_grace_period_ms
      then (do
        active ← gets (λ db. find_one (is_active_in_family r.family) db.refresh_tokens)
        throw_if (not (is_some active)) invalid_token
        answer_refresh e r raw)
      else (do
        modify (revoke_where (is_active_in_family r.family) e.now)
        throw token_reuse_detected)

  -- `refresh` at an active token: it is revoked, and a new one of its family takes its place.
  unfoldable pub rotate : Env → RefreshToken → Action AuthDb TokenPair
  unfolding answer_refresh revoke_where generate_refresh_token new_refresh_token
      insert_refresh_token
  rotate e r = do
    let raw = generate_refresh_token e r.user_id r.family
    modify (revoke_where (λ row. row.id == r.id) e.now)
    modify (insert_refresh_token (new_refresh_token e raw r.family r.user_id))
    answer_refresh e r raw

  abbrev pub refresh_found : Env → Text → RefreshToken → Option ℕ → Action AuthDb TokenPair
  refresh_found e raw r none = rotate e r
  refresh_found e raw r (some revoked_at) = refresh_revoked e raw r revoked_at

  -- `refresh`
  unfoldable pub refresh : Env → Text → Action AuthDb TokenPair
  unfolding refresh_revoked rotate
  refresh e raw = do
    found ← gets (λ db. find_one (has_token_hash (k.sha256 raw)) db.refresh_tokens)
    r ← or_throw found invalid_token
    throw_if (ltb r.expires_at e.now) token_expired
    refresh_found e raw r r.revoked_at

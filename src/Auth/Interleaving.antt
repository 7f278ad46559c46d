-- ===== src/Auth/Interleaving.antt =====
-- Calls of `refresh` and `logout` of nestjs-project/src/auth/auth.service.ts that run at the same
-- time: a call goes from one call of a repository to the next, and other calls run in between. What
-- TypeORM sends to the database within one call of a repository is taken as one step.
pub mod Alone
pub mod Settled
pub mod Overlap
use videum_video_platform.Common.{
  ℕ, ◌-◌, Option, none, some, Text, Result, ok, err, internal, invalid_token, token_expired,
  token_reuse_detected, find_one, is_some, leb, ltb, ◌==◌, if◌then◌else◌,
}
use videum_video_platform.Auth.Model.{
  User, RefreshToken, AuthDb, AuthConfig, Crypto, Env, TokenPair,
}
use videum_video_platform.Auth.Sessions.{
  token_reuse_grace_period_ms, has_token_hash, is_active_in_family, is_active_of_user, revoke_where,
  insert_refresh_token, user_of, generate_access_token, generate_refresh_token, new_refresh_token,
}

-- Where a call stands: before its first call of a repository, at the second lookup of a token in its grace, at
-- the revocation of a family, at the two saves that `Promise.all` starts, at the one of them that is
-- left, or at its end. The row and its user are those that the first lookup found.
pub data Point : Type 0 where
  refreshing : Env → Text → Point
  looking_for_active : Env → Text → RefreshToken → Option User → Point
  revoking_family : Env → Text → RefreshToken → Point
  saving saving_new saving_old : Env → Text → RefreshToken → Option User → Point
  refreshed : Text → Result TokenPair → Point
  logging_out : Env → ℕ → Point
  logged_out : ℕ → Point

module _ (k : Crypto) (cfg : AuthConfig) where
  -- The answer with the given refresh token.
  abbrev pub answer_for : Env → RefreshToken → Option User → Text → Result TokenPair
  answer_for e r none raw = err internal
  answer_for e r (some user) raw = ok (record {
    access_token = generate_access_token k cfg e r.user_id user.email;
    refresh_token = raw;
  })

  abbrev pub after_row : Env → Text → RefreshToken → Option User → Option ℕ → Point
  after_row e raw r user none = saving e raw r user
  after_row e raw r user (some revoked_at) =
      if leb (e.now - revoked_at) token_reuse_grace_period_ms
      then looking_for_active e raw r user
      else revoking_family e raw r

  -- What a call does with the result of its first lookup.
  abbrev pub after_lookup : Env → Text → AuthDb → Option RefreshToken → Point
  after_lookup e raw db none = refreshed raw (err invalid_token)
  after_lookup e raw db (some r) =
      if ltb r.expires_at e.now
      then refreshed raw (err token_expired)
      else after_row e raw r (user_of r.user_id db) r.revoked_at

  abbrev pub raw_of : Env → RefreshToken → Text
  raw_of e r = generate_refresh_token k cfg e r.user_id r.family

  abbrev pub row_of : Env → RefreshToken → RefreshToken
  row_of e r = new_refresh_token k cfg e (raw_of e r) r.family r.user_id

  -- The first save, of the row that was read; only its column `revoked_at` has changed.
  abbrev pub save_old : Env → RefreshToken → AuthDb → AuthDb
  save_old e r db = revoke_where (λ row. row.id == r.id) e.now db

  abbrev pub save_new : Env → RefreshToken → AuthDb → AuthDb
  save_new e r db = insert_refresh_token (row_of e r) db

  -- One call of a repository.
  pub data Move (db : AuthDb) : Point → AuthDb → Point → Type 0 where
    look_up :
        (e : Env) (raw : Text)
        → Move db
            (refreshing e raw)
            db
            (after_lookup e raw db (find_one (has_token_hash (k.sha256 raw)) db.refresh_tokens))
    look_for_active :
        (e : Env) (raw : Text) (r : RefreshToken) (user : Option User)
        → Move db (looking_for_active e raw r user) db (
            refreshed raw (
              if is_some (find_one (is_active_in_family r.family) db.refresh_tokens)
              then answer_for e r user raw
              else err invalid_token))
    revoke_family :
        (e : Env) (raw : Text) (r : RefreshToken)
        → Move db
            (revoking_family e raw r)
            (revoke_where (is_active_in_family r.family) e.now db)
            (refreshed raw (err token_reuse_detected))
    old_first :
        (e : Env) (raw : Text) (r : RefreshToken) (user : Option User)
        → Move db (saving e raw r user) (save_old e r db) (saving_new e raw r user)
    new_first :
        (e : Env) (raw : Text) (r : RefreshToken) (user : Option User)
        → Move db (saving e raw r user) (save_new e r db) (saving_old e raw r user)
    new_last :
        (e : Env) (raw : Text) (r : RefreshToken) (user : Option User)
        → Move db
            (saving_new e raw r user)
            (save_new e r db)
            (refreshed raw (answer_for e r user (raw_of e r)))
    old_last :
        (e : Env) (raw : Text) (r : RefreshToken) (user : Option User)
        → Move db
            (saving_old e raw r user)
            (save_old e r db)
            (refreshed raw (answer_for e r user (raw_of e r)))
    log_out :
        (e : Env) (user_id : ℕ)
        → Move db
            (logging_out e user_id)
            (revoke_where (is_active_of_user user_id) e.latest db)
            (logged_out user_id)

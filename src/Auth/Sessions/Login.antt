-- ===== src/Auth/Sessions/Login.antt =====
-- `login` of nestjs-project/src/auth/auth.service.ts.
use videum_video_platform.Common.{
  ◌+◌, ◌≡◌, refl, ap, ◌⊎◌, ◌≤◌, true, false, inl, inr, none, some, Text, find_one, insert,
  Bool-cases, Option-cases, arith, ok, err, invalid_credentials, email_not_confirmed,
}
use videum_video_platform.Common.Tables.Laws.{find_one-insert_new}
use videum_video_platform.Users.{find_by_email}
use videum_video_platform.Auth.Model.{User, AuthDb, AuthConfig, Crypto, Env, TokenPair}
use videum_video_platform.Auth.Duration.{jwt_expiration_to_ms}
use videum_video_platform.Auth.Sessions.{
  has_token_hash, login, refresh, user_of, generate_refresh_token, new_refresh_token,
}
use videum_video_platform.Auth.Sessions.Rotation.{refresh_rotates}

-- The three conditions of a login.
pub record MayLogIn (k : Crypto) (db : AuthDb) (email password : Text) (user : User) : Type 0 where
  pub known : find_by_email email db ≡ some user
  pub right_password : k.argon2_verify user.password password ≡ true
  pub confirmed : user.is_confirmed ≡ true

module _ (k : Crypto) (cfg : AuthConfig) (e : Env) (db : AuthDb) (email password : Text) where
  login-of_MayLogIn :
      (user : User)
      → MayLogIn k db email password user
      → let raw = generate_refresh_token k cfg e user.id e.family in
        login k cfg e email password db ≡ (
          ok (record {
            access_token = k.sign_access user.id user.email cfg.jwt_access_expiration e.now;
            refresh_token = raw;
          }),
          record db {
            refresh_tokens =
                insert (new_refresh_token k cfg e raw e.family user.id) db.refresh_tokens;
          },
        )
  unfolding login
  login-of_MayLogIn user may = rw (may.known, may.right_password, may.confirmed)

  -- A login ends in one of three ways. The email is known, the password is verified against the
  -- stored digest and the email is confirmed, and the login succeeds; or only the confirmation is
  -- missing, and it fails with `EMAIL_NOT_CONFIRMED`; or the email is unknown or the password
  -- wrong, and it fails with `INVALID_CREDENTIALS`. A failed login writes nothing.
  pub login_cases :
      ((user : User) × MayLogIn k db email password user
        × ((pair : TokenPair) × ((login k cfg e email password db).0 ≡ ok pair)))
      ⊎ ((login k cfg e email password db ≡ (err email_not_confirmed, db))
          × ((user : User) × (find_by_email email db ≡ some user)
              × (k.argon2_verify user.password password ≡ true)
              × (user.is_confirmed ≡ false)))
      ⊎ ((login k cfg e email password db ≡ (err invalid_credentials, db))
          × ((user : User)
              → find_by_email email db ≡ some user
              → k.argon2_verify user.password password ≡ false))
  unfolding login
  login_cases = elim (Option-cases (find_by_email email db)) [
    | inl unknown ↦ inr (inr (rw unknown, λ user known. cc))
    | inr (user, known) ↦ elim (Bool-cases (k.argon2_verify user.password password)) [
      | inr wrong ↦
          inr (inr (rw (known, wrong), λ other same. let one : other ≡ user = cc in rw one wrong))
      | inl right ↦ elim (Bool-cases user.is_confirmed) [
        | inr unconfirmed ↦
            inr (inl (rw (known, right, unconfirmed), (user, known, right, unconfirmed)))
        | inl yes_confirmed ↦
            let may : MayLogIn k db email password user = record {
              known = known;
              right_password = right;
              confirmed = yes_confirmed;
            } in
            inl (user, may, (_, ap (λ t. t.0) (login-of_MayLogIn user may)))
      ]
    ]
  ]

-- The refresh token of a login is accepted until one lifetime has passed, and answered with a new
-- pair for the same user and family. It is assumed that the digests of both tokens are new, and
-- that the user's identifier finds the user.
pub refresh-login :
    (k : Crypto) (cfg : AuthConfig) (e e' : Env) (db : AuthDb) (email password : Text) (user : User)
    → MayLogIn k db email password user
    → user_of user.id db ≡ some user
    → find_one
        (has_token_hash (k.sha256 (generate_refresh_token k cfg e user.id e.family)))
        db.refresh_tokens
      ≡ none
    → find_one
        (has_token_hash (k.sha256 (generate_refresh_token k cfg e' user.id e.family)))
        (login k cfg e email password db).1.refresh_tokens
      ≡ none
    → e'.now ≤ e.now + jwt_expiration_to_ms cfg.jwt_refresh_expiration
    → let raw = generate_refresh_token k cfg e user.id e.family in
      let raw' = generate_refresh_token k cfg e' user.id e.family in
      (refresh k cfg e' raw (login k cfg e email password db).1).0
      ≡ ok (record {
        access_token = k.sign_access user.id user.email cfg.jwt_access_expiration e'.now;
        refresh_token = raw';
      })
unfolding new_refresh_token user_of
refresh-login k cfg e e' db email password user may by_id fresh fresh' live =
    let raw = generate_refresh_token k cfg e user.id e.family in
    let new = new_refresh_token k cfg e raw e.family user.id in
    let done = login-of_MayLogIn k cfg e db email password user may in
    let found : find_one (has_token_hash (k.sha256 raw)) (insert new db.refresh_tokens) ≡ some new =
      find_one-insert_new _ new db.refresh_tokens fresh (ground arith) in
    rw done
      (refresh_rotates k cfg e' raw (record db { refresh_tokens = insert new db.refresh_tokens })
        new found live user refl by_id (rw done at fresh')).0

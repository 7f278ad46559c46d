-- ===== src/Auth/Accounts/Reset.antt =====
-- What `resetPassword`, `resendConfirmation` and `forgotPassword` of
-- nestjs-project/src/auth/auth.service.ts leave behind.
use videum_video_platform.Common.{
  ℕ, ◌≡◌, refl, ◌∙◌, Bool, true, false, List, [], ◌∷◌, if◌then◌else◌, some, Text, find_one,
  update_where, insert, ok, err, invalid_credentials, Bool-cases, ==_refl, arith, ltb, ◌==◌, inl,
  inr,
}
use videum_video_platform.Common.Tables.Laws.{find_one-update_where}
use videum_video_platform.Users.{has_email, has_id, find_by_email, find_by_email_with_channel}
use videum_video_platform.Auth.Model.{
  User, VerificationToken, VerificationTokenType, email_confirmation, password_reset, AuthDb,
  AuthConfig, Crypto, Env, TokenPair,
}
use videum_video_platform.Auth.Sessions.{user_of, login}
use videum_video_platform.Auth.Verification.{is_usable_hash, is_unused_of_user, use_at}
use videum_video_platform.Auth.Accounts.{
  resend_confirmation, forgot_password, reset_password, save_user, set_password,
}
use videum_video_platform.Auth.Accounts.TokenSteps.{issued}
use videum_video_platform.Auth.Requests.Revocation.{NoneActive}
use videum_video_platform.Auth.Requests.Finality.{NoneActive-revoke_active}

-- What a reset rests on.
pub record MayReset (k : Crypto) (e : Env) (token : Text) (db : AuthDb) (r : VerificationToken)
    (user : User) : Type 0 where
  pub known :
      find_one (is_usable_hash (k.sha256 token) password_reset) db.verification_tokens ≡ some r
  pub alive : ltb r.expires_at e.now ≡ false
  pub owned : user_of r.user_id db ≡ some user

module _ (k : Crypto) (cfg : AuthConfig) (e : Env) (token new_password : Text) (db : AuthDb)
    (r : VerificationToken) (user : User) where
  reset_password-of_MayReset :
      MayReset k e token db r user
      → let db' = (reset_password k cfg e token new_password db).1 in
        ((reset_password k cfg e token new_password db).0 ≡ ok tt)
        × (db'.users
            ≡ update_where
                (has_id user.id)
                (set_password (k.argon2_hash e.salt new_password))
                db.users)
        × NoneActive (λ f v. v == user.id) db'.refresh_tokens
  unfolding reset_password save_user
  reset_password-of_MayReset may =
      let dead = NoneActive-revoke_active (λ f v. v == user.id) e.latest db.refresh_tokens in
      rw (may.known, may.alive, may.owned) (refl, refl, dead)

  find-reset :
      find_by_email user.email db ≡ some user
      → (db' : AuthDb)
      → db'.users
        ≡ update_where (has_id user.id) (set_password (k.argon2_hash e.salt new_password)) db.users
      → find_by_email user.email db' ≡ some (set_password (k.argon2_hash e.salt new_password) user)
  unfolding find_by_email
  find-reset found db' changed = rw changed (
      find_one-update_where (has_email user.email) (has_id user.id)
        (set_password (k.argon2_hash e.salt new_password)) db.users (λ x. ground arith)
      ∙ rw (found, ==_refl user.id))

module _ (k : Crypto) (cfg : AuthConfig) (e : Env) (db : AuthDb) (user : User) where
  pub login-right :
      (password : Text)
      → find_by_email user.email db ≡ some user
      → user.is_confirmed ≡ true
      → k.argon2_verify user.password password ≡ true
      → (pair : TokenPair) × ((login k cfg e user.email password db).0 ≡ ok pair)
  unfolding login
  login-right password found confirmed right = rw (found, right, confirmed) (_, refl)

  login-wrong :
      (password : Text)
      → find_by_email user.email db ≡ some user
      → k.argon2_verify user.password password ≡ false
      → (login k cfg e user.email password db).0 ≡ err invalid_credentials
  unfolding login
  login-wrong password found wrong = rw (found, wrong)

-- A reset with a token that is known, unused and alive succeeds. It leaves no active refresh token of
-- the token's user, who, if confirmed and the one found by the email, can log in with the new
-- password at once; a password that is not verified against the new digest is refused.
-- Assumed of the hash is that a digest verifies the password it was made from.
pub reset_password-login :
    (k : Crypto) (cfg : AuthConfig) (e e' : Env) (token new_password old_password : Text)
    (db : AuthDb) (r : VerificationToken) (user : User)
    → ((salt : ℕ) (password : Text) → k.argon2_verify (k.argon2_hash salt password) password ≡ true)
    → MayReset k e token db r user
    → find_by_email user.email db ≡ some user
    → user.is_confirmed ≡ true
    → k.argon2_verify (k.argon2_hash e.salt new_password) old_password ≡ false
    → let db' = (reset_password k cfg e token new_password db).1 in
      ((reset_password k cfg e token new_password db).0 ≡ ok tt)
      × NoneActive (λ f v. v == user.id) db'.refresh_tokens
      × ((pair : TokenPair) × ((login k cfg e' user.email new_password db').0 ≡ ok pair))
      × ((login k cfg e' user.email old_password db').0 ≡ err invalid_credentials)
reset_password-login k cfg e e' token new_password old_password db r user verifies may found
      confirmed wrong =
    let db' = (reset_password k cfg e token new_password db).1 in
    let digest = k.argon2_hash e.salt new_password in
    let (done, changed, dead) =
      reset_password-of_MayReset k cfg e token new_password db r user may in
    let found' = find-reset k cfg e token new_password db r user found db' changed in
    (
      done,
      dead,
      login-right k cfg e' db' (set_password digest user) new_password found' confirmed
          (verifies e.salt new_password),
      login-wrong k cfg e' db' (set_password digest user) old_password found' wrong,
    )

-- The rows that meet a condition.
abbrev pub select : (VerificationToken → Bool) → List VerificationToken → List VerificationToken
select p [] = []
select p (r ∷ rows) = if p r then r ∷ select p rows else select p rows

-- After the unused tokens of a user and type are marked and a new row is inserted, only the new row
-- is unused.
latest_only :
    (user_id : ℕ) (type : VerificationTokenType) (time : ℕ) (new : VerificationToken)
    (rows : List VerificationToken)
    → is_unused_of_user user_id type new ≡ true
    → select
        (is_unused_of_user user_id type)
        (insert new (update_where (is_unused_of_user user_id type) (use_at time) rows))
      ≡ new ∷ []
unfolding insert update_where
latest_only user_id type time new [] live = rw live
latest_only user_id type time new (r ∷ rows) live =
    let ih = latest_only user_id type time new rows live in
    elim (Bool-cases (is_unused_of_user user_id type r)) [
      | inl mine ↦
          (let dead : is_unused_of_user user_id type (use_at time r) ≡ false = ground arith in
            rw mine (rw dead ih))
      | inr other ↦ rw other (rw other ih)
    ]

module _ (k : Crypto) (cfg : AuthConfig) (e : Env) (db : AuthDb) (user : User) where
  -- After `resendConfirmation` for a user who is not confirmed, whether or not the mail goes out, the
  -- only unused confirmation token of the user is the one just drawn.
  pub resend_confirmation-latest_only :
      find_by_email user.email db ≡ some user
      → user.is_confirmed ≡ false
      → select
          (is_unused_of_user user.id email_confirmation)
          (resend_confirmation k cfg e user.email db).1.verification_tokens
        ≡ issued k e user.id email_confirmation cfg.confirmation_token_expiration_hours ∷ []
  unfolding resend_confirmation find_by_email_with_channel
  resend_confirmation-latest_only found waiting =
      let new = issued k e user.id email_confirmation cfg.confirmation_token_expiration_hours in
      let e : (resend_confirmation k cfg e user.email db).1.verification_tokens
          ≡ insert new (
              update_where (is_unused_of_user user.id email_confirmation) (use_at e.now)
                db.verification_tokens) =
        ground arith in
      rw e (
        latest_only user.id email_confirmation _ new db.verification_tokens
          (let self = ==_refl user.id in ground arith))

  -- After `forgotPassword` for a user, whether or not the mail goes out, the only unused reset token
  -- of the user is the one just drawn.
  pub forgot_password-latest_only :
      find_by_email user.email db ≡ some user
      → select
          (is_unused_of_user user.id password_reset)
          (forgot_password k cfg e user.email db).1.verification_tokens
        ≡ issued k e user.id password_reset cfg.password_reset_token_expiration_hours ∷ []
  unfolding forgot_password find_by_email_with_channel
  forgot_password-latest_only found =
      let new = issued k e user.id password_reset cfg.password_reset_token_expiration_hours in
      let e : (forgot_password k cfg e user.email db).1.verification_tokens
          ≡ insert new (
              update_where (is_unused_of_user user.id password_reset) (use_at e.now)
                db.verification_tokens) =
        ground arith in
      rw e (
        latest_only user.id password_reset _ new db.verification_tokens
          (let self = ==_refl user.id in ground arith))

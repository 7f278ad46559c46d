-- ===== src/Auth/Accounts/Registration.antt =====
-- From `register` over `confirm` to `login` in nestjs-project/src/auth/auth.service.ts.
use videum_video_platform.Common.{
  ℕ, ◌+◌, ◌*◌, ◌≤◌, ◌≡◌, refl, ◌∙◌, true, false, List, [], ◌∷◌, ◌++◌, none, some, Text, find_one,
  update_where, insert, ok, err, Action, email_not_confirmed, ==_refl, arith, ltb, text_eq_refl,
  All,
}
use videum_video_platform.Common.Tables.Laws.{
  find_one-update_where, find_one-none, find_one-insert_new,
}
use videum_video_platform.Channels.Channel.{Channel}
use videum_video_platform.Mail.{confirmation_mail}
use videum_video_platform.Users.{has_email, has_id, find_by_email}
use videum_video_platform.Users.Creation.{new_user, create_user_with_channel-ok}
use videum_video_platform.Auth.Model.{
  User, email_confirmation, AuthDb, AuthConfig, Crypto, Env, TokenPair,
}
use videum_video_platform.Auth.Sessions.{user_of, login}
use videum_video_platform.Auth.Verification.{is_usable_hash}
use videum_video_platform.Auth.Accounts.{register, confirm, confirm_user, save_user}
use videum_video_platform.Auth.Accounts.TokenSteps.{issued}
use videum_video_platform.Auth.Accounts.Reset.{login-right}

module _ (k : Crypto) (cfg : AuthConfig) (create_channel : ℕ → Text → Action (List Channel) Channel)
    (e : Env) (email password : Text) (db : AuthDb) (channel : Channel)
    (channels : List Channel) where
  -- The tables after a registration.
  abbrev registered_db : AuthDb
  registered_db = record db {
    users = insert (new_user e.user_id email (k.argon2_hash e.salt password)) db.users;
    channels = channels;
    verification_tokens =
        insert (issued k e e.user_id email_confirmation cfg.confirmation_token_expiration_hours)
          db.verification_tokens;
    outbox = db.outbox ++ confirmation_mail cfg.app_url email channel.name e.raw_token ∷ [];
  }

  register-ok :
      find_by_email email db ≡ none
      → create_channel e.user_id email db.channels ≡ (ok channel, channels)
      → e.mail_accepted ≡ true
      → register k cfg create_channel e email password db
        ≡ (ok (record { id = e.user_id; email = email }), registered_db)
  unfolding register
  register-ok free made accepted = rw (
    free,
    create_user_with_channel-ok create_channel e.user_id email (k.argon2_hash e.salt password) db
        channels channel free made,
    accepted,
  )

  confirm-registered :
      (e' : Env)
      → All (λ u. has_id e.user_id u ≡ false) db.users
      → All
          (λ r. is_usable_hash (k.sha256 e.raw_token) email_confirmation r ≡ false)
          db.verification_tokens
      → e'.now ≤ e.now + cfg.confirmation_token_expiration_hours * 60 * 60 * 1000
      → ((confirm k cfg e' e.raw_token registered_db).0 ≡ ok tt)
        × ((confirm k cfg e' e.raw_token registered_db).1.users
            ≡ update_where (has_id e.user_id) confirm_user registered_db.users)
  unfolding confirm user_of save_user
  confirm-registered e' new_id new_hash alive =
      let user = new_user e.user_id email (k.argon2_hash e.salt password) in
      let row = issued k e e.user_id email_confirmation cfg.confirmation_token_expiration_hours in
      let known : find_one (is_usable_hash (k.sha256 e.raw_token) email_confirmation)
            registered_db.verification_tokens
          ≡ some row =
        find_one-insert_new _ row db.verification_tokens
          (find_one-none _ db.verification_tokens new_hash)
          (let self = ==_refl (k.sha256 e.raw_token) in ground arith) in
      let owned : find_one (has_id e.user_id) registered_db.users ≡ some user =
        find_one-insert_new _ user db.users (find_one-none _ db.users new_id) (==_refl e.user_id) in
      let live : ltb row.expires_at e'.now ≡ false = ground arith in
      rw (known, live, owned) (refl, refl)

  find-registered :
      find_by_email email db ≡ none
      → find_by_email email registered_db
        ≡ some (new_user e.user_id email (k.argon2_hash e.salt password))
  unfolding find_by_email
  find-registered free = find_one-insert_new (has_email email) _ db.users free (text_eq_refl email)

  find-confirmed :
      (db' : AuthDb)
      → find_by_email email db ≡ none
      → db'.users ≡ update_where (has_id e.user_id) confirm_user registered_db.users
      → find_by_email email db'
        ≡ some (confirm_user (new_user e.user_id email (k.argon2_hash e.salt password)))
  unfolding find_by_email
  find-confirmed db' free changed = rw changed (
      find_one-update_where (has_email email) (has_id e.user_id) confirm_user registered_db.users
        (λ x. ground arith)
      ∙ rw (
        find_one-insert_new (has_email email)
            (new_user e.user_id email (k.argon2_hash e.salt password)) db.users free
            (text_eq_refl email),
        ==_refl e.user_id,
      ))

login-unconfirmed :
    (k : Crypto) (cfg : AuthConfig) (e : Env) (email password : Text) (db : AuthDb) (user : User)
    → find_by_email email db ≡ some user
    → k.argon2_verify user.password password ≡ true
    → user.is_confirmed ≡ false
    → (login k cfg e email password db).0 ≡ err email_not_confirmed
unfolding login
login-unconfirmed k cfg e email password db user found right waiting = rw (found, right, waiting)

-- A registration with an unknown email, for which a channel can be made and whose mail is accepted,
-- succeeds and mails a link with the token that it drew. A login before the confirmation fails with
-- `EMAIL_NOT_CONFIRMED`. A `confirm` with the mailed token within the hours configured succeeds,
-- after which the email and the password log in. The identifier of the user and the
-- digest of the token must be new, and a digest must verify the password it was made from.
pub register-confirm-login :
    (k : Crypto) (cfg : AuthConfig) (create_channel : ℕ → Text → Action (List Channel) Channel)
    (e e1 e2 e3 : Env) (email password : Text) (db : AuthDb) (channel : Channel)
    (channels : List Channel)
    → ((salt : ℕ) (password : Text) → k.argon2_verify (k.argon2_hash salt password) password ≡ true)
    → find_by_email email db ≡ none
    → create_channel e.user_id email db.channels ≡ (ok channel, channels)
    → e.mail_accepted ≡ true
    → All (λ u. has_id e.user_id u ≡ false) db.users
    → All
        (λ r. is_usable_hash (k.sha256 e.raw_token) email_confirmation r ≡ false)
        db.verification_tokens
    → e2.now ≤ e.now + cfg.confirmation_token_expiration_hours * 60 * 60 * 1000
    → let db1 = (register k cfg create_channel e email password db).1 in
      let db2 = (confirm k cfg e2 e.raw_token db1).1 in
      ((register k cfg create_channel e email password db).0
        ≡ ok (record { id = e.user_id; email = email }))
      × (db1.outbox
          ≡ db.outbox ++ confirmation_mail cfg.app_url email channel.name e.raw_token ∷ [])
      × ((login k cfg e1 email password db1).0 ≡ err email_not_confirmed)
      × ((confirm k cfg e2 e.raw_token db1).0 ≡ ok tt)
      × ((pair : TokenPair) × ((login k cfg e3 email password db2).0 ≡ ok pair))
register-confirm-login k cfg create_channel e e1 e2 e3 email password db channel channels verifies
      free made accepted new_id new_hash alive =
    let user = new_user e.user_id email (k.argon2_hash e.salt password) in
    let db1 = registered_db k cfg create_channel e email password db channel channels in
    let right = verifies e.salt password in
    let (confirmed, changed) =
      confirm-registered k cfg create_channel e email password db channel channels e2 new_id
        new_hash alive in
    rw (register-ok k cfg create_channel e email password db channel channels free made accepted) (
      refl,
      refl,
      login-unconfirmed k cfg e1 email password db1 user
          (find-registered k cfg create_channel e email password db channel channels free) right
          refl,
      confirmed,
      login-right k cfg e3 (confirm k cfg e2 e.raw_token db1).1 (confirm_user user) password
          (find-confirmed k cfg create_channel e email password db channel channels _ free changed)
          refl right,
    )

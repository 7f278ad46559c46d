-- ===== src/Auth/Accounts.antt =====
-- The accounts of nestjs-project/src/auth/auth.service.ts: registration, confirmation, and the
-- reset of a password.
pub mod TokenSteps
pub mod SingleUse
pub mod Reset
pub mod Registration
use videum_video_platform.Common.{
  ℕ, true, List, Option, none, some, Text, Action, ◌>>=◌, ◌>>◌, pure, throw_if, or_throw, gets,
  modify, email_already_exists, internal, update_where, is_some, if◌then◌else◌,
}
use videum_video_platform.Channels.Channel.{Channel}
use videum_video_platform.Mail.{Mail, send_mail, confirmation_mail, password_reset_mail}
use videum_video_platform.Users.{
  has_id, find_by_email, find_by_email_with_channel, create_user_with_channel,
}
use videum_video_platform.Auth.Model.{
  User, email_confirmation, password_reset, AuthDb, AuthConfig, Crypto, Env,
}
use videum_video_platform.Auth.Sessions.{logout}
use videum_video_platform.Auth.Verification.{
  save_used, invalidate_active_verification_tokens, create_verification_token,
  consume_verification_token,
}

-- A call of the mail service, on the mails of the database's record.
abbrev pub mailing : {A : Type 0} → Action (List Mail) A → Action AuthDb A
mailing m db = let (r, outbox) = m db.outbox in (r, record db { outbox = outbox })

-- `usersService.save` of a user that was changed by the given function: only the columns that
-- changed are written.
unfoldable pub save_user : ℕ → (User → User) → AuthDb → AuthDb
save_user id change db = record db { users = update_where (has_id id) change db.users }

abbrev pub confirm_user : User → User
confirm_user user = record user { is_confirmed = true }

abbrev pub set_password : Text → User → User
set_password digest user = record user { password = digest }

pub record Registered : Type 0 where
  pub id : ℕ
  pub email : Text

module _ (k : Crypto) (cfg : AuthConfig)
    (create_channel : ℕ → Text → Action (List Channel) Channel) where
  -- `register`
  unfoldable pub register : Env → Text → Text → Action AuthDb Registered
  unfolding create_user_with_channel create_verification_token
  register e email password = do
    existing ← gets (find_by_email email)
    throw_if (is_some existing) email_already_exists
    created ←
        create_user_with_channel create_channel e.user_id email (k.argon2_hash e.salt password)
    raw ←
        create_verification_token k e created.0.id email_confirmation
          cfg.confirmation_token_expiration_hours
    mailing (
        send_mail e.mail_accepted
          (confirmation_mail cfg.app_url created.0.email created.1.name raw))
    pure (record { id = created.0.id; email = created.0.email })

module _ (k : Crypto) (cfg : AuthConfig) where
  -- `confirm`
  unfoldable pub confirm : Env → Text → Action AuthDb (Unit {0})
  unfolding consume_verification_token save_used save_user
  confirm e token = do
    consumed ← consume_verification_token k e token email_confirmation
    user ← or_throw consumed.1 internal
    modify (save_used consumed.0 e.later)
    modify (save_user user.id confirm_user)

  -- What `resendConfirmation` does for a user that is found and not confirmed.
  unfoldable pub resend_to : Env → User → Option Channel → Action AuthDb (Unit {0})
  unfolding invalidate_active_verification_tokens create_verification_token
  resend_to e user channel = do
    invalidate_active_verification_tokens e user.id email_confirmation
    raw ←
        create_verification_token k e user.id email_confirmation
          cfg.confirmation_token_expiration_hours
    c ← or_throw channel internal
    mailing (send_mail e.mail_accepted (confirmation_mail cfg.app_url user.email c.name raw))

  abbrev resend_found : Env → Option (User × Option Channel) → Action AuthDb (Unit {0})
  resend_found e none = pure tt
  resend_found e (some (user, channel)) =
      if user.is_confirmed then pure tt else resend_to e user channel

  -- `resendConfirmation`
  unfoldable pub resend_confirmation : Env → Text → Action AuthDb (Unit {0})
  unfolding resend_to
  resend_confirmation e email = do
    found ← gets (find_by_email_with_channel email)
    resend_found e found

  -- What `forgotPassword` does for a user that is found.
  unfoldable pub send_reset_to : Env → User → Option Channel → Action AuthDb (Unit {0})
  unfolding invalidate_active_verification_tokens create_verification_token
  send_reset_to e user channel = do
    invalidate_active_verification_tokens e user.id password_reset
    raw ←
        create_verification_token k e user.id password_reset
          cfg.password_reset_token_expiration_hours
    c ← or_throw channel internal
    mailing (send_mail e.mail_accepted (password_reset_mail cfg.app_url user.email c.name raw))

  abbrev send_reset_found : Env → Option (User × Option Channel) → Action AuthDb (Unit {0})
  send_reset_found e none = pure tt
  send_reset_found e (some (user, channel)) = send_reset_to e user channel

  -- `forgotPassword`
  unfoldable pub forgot_password : Env → Text → Action AuthDb (Unit {0})
  unfolding send_reset_to
  forgot_password e email = do
    found ← gets (find_by_email_with_channel email)
    send_reset_found e found

  -- `resetPassword`
  unfoldable pub reset_password : Env → Text → Text → Action AuthDb (Unit {0})
  unfolding consume_verification_token save_used save_user logout
  reset_password e token new_password = do
    consumed ← consume_verification_token k e token password_reset
    user ← or_throw consumed.1 internal
    modify (save_used consumed.0 e.later)
    modify (save_user user.id (set_password (k.argon2_hash e.salt new_password)))
    logout e user.id

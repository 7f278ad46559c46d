-- ===== src/Auth/Requests/Frame.antt =====
-- What the requests leave alone.
use videum_video_platform.Common.{ℕ, ◌≡◌, List, Text, Action, arith, is_some, Bool-cases, inl, inr}
use videum_video_platform.Channels.Channel.{Channel}
use videum_video_platform.Users.{find_by_email, find_by_email_with_channel}
use videum_video_platform.Auth.Model.{AuthDb, AuthConfig, Crypto, Env}
use videum_video_platform.Auth.Accounts.{register, confirm, resend_confirmation, forgot_password}

module _ (k : Crypto) (cfg : AuthConfig)
    (create_channel : ℕ → Text → Action (List Channel) Channel) where
  pub refresh_tokens-register :
      (e : Env) (email password : Text) (db : AuthDb)
      → (register k cfg create_channel e email password db).1.refresh_tokens ≡ db.refresh_tokens
  unfolding register
  refresh_tokens-register e email password db =
      elim (Bool-cases (is_some (find_by_email email db))) [
        | inl taken ↦ rw taken
        | inr free ↦ rw free (ground arith)
      ]

module _ (k : Crypto) (cfg : AuthConfig) (e : Env) (db : AuthDb) where
  pub refresh_tokens-confirm :
      (token : Text) → (confirm k cfg e token db).1.refresh_tokens ≡ db.refresh_tokens
  unfolding confirm
  refresh_tokens-confirm token = ground arith

  pub refresh_tokens-resend_confirmation :
      (email : Text) → (resend_confirmation k cfg e email db).1.refresh_tokens ≡ db.refresh_tokens
  unfolding resend_confirmation find_by_email_with_channel
  refresh_tokens-resend_confirmation email = ground arith

  pub refresh_tokens-forgot_password :
      (email : Text) → (forgot_password k cfg e email db).1.refresh_tokens ≡ db.refresh_tokens
  unfolding forgot_password find_by_email_with_channel
  refresh_tokens-forgot_password email = ground arith

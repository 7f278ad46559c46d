-- ===== src/Auth/Requests.antt =====
-- The requests that reach the service of nestjs-project/src/auth/auth.service.ts, as data, and a
-- sequence of them run one after the other.
pub mod Frame
pub mod Spec
pub mod Revocation
pub mod Finality
use videum_video_platform.Common.{ℕ, ◌≢◌, ◌≡◌, List, [], ◌∷◌, Option, none, some, Text, Action, All}
use mathlib.Core.Option
use videum_video_platform.Channels.Channel.{Channel}
use videum_video_platform.Users.{find_by_email}
use videum_video_platform.Auth.Model.{AuthDb, AuthConfig, Crypto, Env}
use videum_video_platform.Auth.Sessions.{login, refresh, logout}
use videum_video_platform.Auth.Accounts.{
  register, confirm, resend_confirmation, forgot_password, reset_password,
}

-- One constructor for each method of the service.
pub data Request : Type 0 where
  register_user : Env → Text → Text → Request
  log_in : Env → Text → Text → Request
  confirm_email : Env → Text → Request
  resend : Env → Text → Request
  refresh_tokens : Env → Text → Request
  forgot : Env → Text → Request
  reset : Env → Text → Text → Request
  log_out : Env → ℕ → Request

-- The user whom a login would be for.
abbrev pub login_user : Request → AuthDb → Option ℕ
login_user (log_in e email password) db = Option.map (λ u. u.id) (find_by_email email db)
login_user _ db = none

-- The family that a login draws.
abbrev pub login_family : Request → Option ℕ
login_family (log_in e email password) = some e.family
login_family _ = none

-- The family that a login draws is new to the table.
abbrev pub IsFreshFamily : Request → AuthDb → Type 0
IsFreshFamily (log_in e email password) db = All (λ r. r.family ≢ e.family) db.refresh_tokens
IsFreshFamily _ db = Unit

module _ (k : Crypto) (cfg : AuthConfig)
    (create_channel : ℕ → Text → Action (List Channel) Channel) where
  -- The tables after one request, whatever it answers.
  unfoldable pub run : Request → AuthDb → AuthDb
  run (register_user e email password) db = (register k cfg create_channel e email password db).1
  run (log_in e email password) db = (login k cfg e email password db).1
  run (confirm_email e token) db = (confirm k cfg e token db).1
  run (resend e email) db = (resend_confirmation k cfg e email db).1
  run (refresh_tokens e raw) db = (refresh k cfg e raw db).1
  run (forgot e email) db = (forgot_password k cfg e email db).1
  run (reset e token new_password) db = (reset_password k cfg e token new_password db).1
  run (log_out e user_id) db = (logout e user_id db).1

  unfoldable pub run_all : List Request → AuthDb → AuthDb
  unfolding run
  run_all [] db = db
  run_all (req ∷ reqs) db = run_all reqs (run req db)

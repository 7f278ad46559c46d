-- ===== src/Auth/Accounts/TokenSteps.antt =====
-- What a request to nestjs-project/src/auth/auth.service.ts may do to the table of verification tokens,
-- as a step relation, and the proof that every request takes such a step.
use videum_video_platform.Common.{
  ℕ, ◌+◌, ◌*◌, ◌≡◌, ◌≢◌, refl, Bool, false, inl, inr, List, Option, none, some, Text, Action, All,
  find_one, update_where, insert, ltb, ◌==◌, Result, ok, err, Bool-cases, Option-cases, arith,
}
use videum_video_platform.Common.Tables.Laws.{All-update_where_same, All-insert}
use videum_video_platform.Channels.Channel.{Channel}
use videum_video_platform.Users.{find_by_email, find_by_email_with_channel}
use videum_video_platform.Users.Creation.{create_user_with_channel-ok, create_user_with_channel-err}
use videum_video_platform.Auth.Model.{
  VerificationToken, VerificationTokenType, email_confirmation, password_reset, AuthDb, AuthConfig,
  Crypto, Env,
}
use videum_video_platform.Auth.Sessions.{user_of, login, refresh, logout}
use videum_video_platform.Auth.Verification.{
  is_usable_hash, is_unused_of_user, use_at, create_verification_token,
}
use videum_video_platform.Auth.Accounts.{
  register, confirm, resend_confirmation, forgot_password, reset_password,
}
use videum_video_platform.Auth.Requests.{
  Request, register_user, log_in, confirm_email, resend, refresh_tokens, forgot, reset, log_out,
  run,
}

-- What a request may do to the table of verification tokens; `fresh` is the digest of the token
-- that it draws.
pub data TokenStep (fresh : Option ℕ) (rows rows' : List VerificationToken) : Type 0 where
  idle : rows' ≡ rows → TokenStep fresh rows rows'
  used :
      (p : VerificationToken → Bool) (time : ℕ)
      → rows' ≡ update_where p (use_at time) rows
      → TokenStep fresh rows rows'
  added :
      (r : VerificationToken)
      → fresh ≡ some r.token_hash
      → rows' ≡ insert r rows
      → TokenStep fresh rows rows'
  replaced :
      (p : VerificationToken → Bool) (time : ℕ) (r : VerificationToken)
      → fresh ≡ some r.token_hash
      → rows' ≡ insert r (update_where p (use_at time) rows)
      → TokenStep fresh rows rows'

-- The digest of the token that a request draws.
abbrev pub fresh_hash : Crypto → Request → Option ℕ
fresh_hash k (register_user e email password) = some (k.sha256 e.raw_token)
fresh_hash k (resend e email) = some (k.sha256 e.raw_token)
fresh_hash k (forgot e email) = some (k.sha256 e.raw_token)
fresh_hash k _ = none

-- No row has a token of the digest and type that can be used.
abbrev pub AllSpent : ℕ → VerificationTokenType → List VerificationToken → Type 0
AllSpent h type rows = All (λ r. is_usable_hash h type r ≡ false) rows

pub TokenStep-AllSpent :
    (h : ℕ) (type : VerificationTokenType) (fresh : Option ℕ) (rows rows' : List VerificationToken)
    → TokenStep fresh rows rows'
    → fresh ≢ some h
    → AllSpent h type rows
    → AllSpent h type rows'
TokenStep-AllSpent h type fresh rows rows' (idle same) other spent = rw same spent
TokenStep-AllSpent h type fresh rows rows' (used p time e) other spent =
    rw e (All-update_where_same _ p (use_at time) rows (λ r dead. ground arith) spent)
TokenStep-AllSpent h type fresh rows rows' (added r drawn e) other spent =
    rw e (All-insert _ r rows spent (ground arith))
TokenStep-AllSpent h type fresh rows rows' (replaced p time r drawn e) other spent = rw e (
    All-insert _ r _ (All-update_where_same _ p (use_at time) rows (λ x dead. ground arith) spent)
      (ground arith))

-- The row that `createVerificationToken` inserts.
abbrev pub issued : Crypto → Env → ℕ → VerificationTokenType → ℕ → VerificationToken
issued k e user_id type hours = record {
  id = e.row_id;
  token_hash = k.sha256 e.raw_token;
  type = type;
  user_id = user_id;
  expires_at = e.now + hours * 60 * 60 * 1000;
  used_at = none;
}

module _ (k : Crypto) (cfg : AuthConfig) (e : Env) (db : AuthDb) where
  confirm-TokenStep :
      (token : Text)
      → TokenStep none db.verification_tokens (confirm k cfg e token db).1.verification_tokens
  unfolding confirm
  confirm-TokenStep token =
      elim (Option-cases
        (find_one (is_usable_hash (k.sha256 token) email_confirmation) db.verification_tokens)) [
          | inl unknown ↦ idle (ground arith)
          | inr (r, found) ↦ elim (Bool-cases (ltb r.expires_at e.now)) [
            | inl expired ↦ idle (ground arith)
            | inr live ↦ elim (Option-cases (user_of r.user_id db)) [
              | inl no_user ↦ idle (ground arith)
              | inr (user, has_user) ↦ used (λ row. row.id == r.id) e.later (ground arith)
            ]
          ]
        ]

  reset_password-TokenStep :
      (token new_password : Text)
      → TokenStep none db.verification_tokens
          (reset_password k cfg e token new_password db).1.verification_tokens
  unfolding reset_password
  reset_password-TokenStep token new_password =
      elim (Option-cases
        (find_one (is_usable_hash (k.sha256 token) password_reset) db.verification_tokens)) [
          | inl unknown ↦ idle (ground arith)
          | inr (r, found) ↦ elim (Bool-cases (ltb r.expires_at e.now)) [
            | inl expired ↦ idle (ground arith)
            | inr live ↦ elim (Option-cases (user_of r.user_id db)) [
              | inl no_user ↦ idle (ground arith)
              | inr (user, has_user) ↦ used (λ row. row.id == r.id) e.later (ground arith)
            ]
          ]
        ]

  resend_confirmation-TokenStep :
      (email : Text)
      → TokenStep
          (some (k.sha256 e.raw_token))
          db.verification_tokens
          (resend_confirmation k cfg e email db).1.verification_tokens
  unfolding resend_confirmation find_by_email_with_channel
  resend_confirmation-TokenStep email = elim (Option-cases (find_by_email email db)) [
    | inl unknown ↦ idle (ground arith)
    | inr (user, found) ↦ elim (Bool-cases user.is_confirmed) [
      | inl done ↦ idle (ground arith)
      | inr waiting ↦
          replaced (is_unused_of_user user.id email_confirmation) e.now
            (issued k e user.id email_confirmation cfg.confirmation_token_expiration_hours) refl
            (ground arith)
    ]
  ]

  forgot_password-TokenStep :
      (email : Text)
      → TokenStep
          (some (k.sha256 e.raw_token))
          db.verification_tokens
          (forgot_password k cfg e email db).1.verification_tokens
  unfolding forgot_password find_by_email_with_channel
  forgot_password-TokenStep email = elim (Option-cases (find_by_email email db)) [
    | inl unknown ↦ idle (ground arith)
    | inr (user, found) ↦
        replaced (is_unused_of_user user.id password_reset) e.now
          (issued k e user.id password_reset cfg.password_reset_token_expiration_hours) refl
          (ground arith)
  ]

  verification_tokens-login :
      (email password : Text)
      → (login k cfg e email password db).1.verification_tokens ≡ db.verification_tokens
  unfolding login
  verification_tokens-login email password = ground arith

  verification_tokens-refresh :
      (raw : Text) → (refresh k cfg e raw db).1.verification_tokens ≡ db.verification_tokens
  unfolding refresh
  verification_tokens-refresh raw = ground arith

module _ (k : Crypto) (cfg : AuthConfig)
    (create_channel : ℕ → Text → Action (List Channel) Channel) where
  register-TokenStep :
      (e : Env) (email password : Text) (db : AuthDb)
      → TokenStep
          (some (k.sha256 e.raw_token))
          db.verification_tokens
          (register k cfg create_channel e email password db).1.verification_tokens
  unfolding register create_verification_token
  register-TokenStep e email password db = elim (Option-cases (find_by_email email db)) [
    | inr (user, taken) ↦ idle (ground arith)
    | inl free ↦ go (create_channel e.user_id email db.channels) refl free
  ]
    where
      go :
          (made : Result Channel × List Channel)
          → create_channel e.user_id email db.channels ≡ made
          → find_by_email email db ≡ none
          → TokenStep
              (some (k.sha256 e.raw_token))
              db.verification_tokens
              (register k cfg create_channel e email password db).1.verification_tokens
      go (err failure, channels) made free = idle (
          rw (
            free,
            create_user_with_channel-err create_channel e.user_id email
                (k.argon2_hash e.salt password) db channels failure free made,
          ))
      go (ok channel, channels) made free =
          added (issued k e e.user_id email_confirmation cfg.confirmation_token_expiration_hours)
            refl
            (rw
              (
                free,
                create_user_with_channel-ok create_channel e.user_id email
                    (k.argon2_hash e.salt password) db channels channel free made,
              )
              (ground arith))

  -- Every request of the authentication service changes the table of verification tokens by one
  -- step.
  pub run-TokenStep :
      (req : Request) (db : AuthDb)
      → TokenStep
          (fresh_hash k req)
          db.verification_tokens
          (run k cfg create_channel req db).verification_tokens
  unfolding run logout
  run-TokenStep (register_user e email password) db = register-TokenStep e email password db
  run-TokenStep (log_in e email password) db =
      idle (verification_tokens-login k cfg e db email password)
  run-TokenStep (confirm_email e token) db = confirm-TokenStep k cfg e db token
  run-TokenStep (resend e email) db = resend_confirmation-TokenStep k cfg e db email
  run-TokenStep (refresh_tokens e raw) db = idle (verification_tokens-refresh k cfg e db raw)
  run-TokenStep (forgot e email) db = forgot_password-TokenStep k cfg e db email
  run-TokenStep (reset e token new_password) db =
      reset_password-TokenStep k cfg e db token new_password
  run-TokenStep (log_out e user_id) db = idle refl

-- ===== src/Auth/Requests/Spec.antt =====
-- What a request may do to the table of refresh tokens, as a step relation, and the proof that
-- every request of the service takes such a step.
use videum_video_platform.Common.{
  ℕ, ◌≡◌, refl, Bool, inl, inr, List, Option, none, some, Text, Action, find_one, update_where,
  insert, leb, ltb, ◌==◌, ◌-◌, Bool-cases, Option-cases, arith,
}
use mathlib.Core.Option
use videum_video_platform.Channels.Channel.{Channel}
use videum_video_platform.Users.{find_by_email}
use videum_video_platform.Auth.Model.{RefreshToken, password_reset, AuthDb, AuthConfig, Crypto, Env}
use videum_video_platform.Auth.Sessions.{
  has_token_hash, revoke, login, refresh, refresh_found, logout, user_of, is_active_of_user,
  is_active_in_family, generate_refresh_token, new_refresh_token, token_reuse_grace_period_ms,
}
use videum_video_platform.Auth.Accounts.{reset_password}
use videum_video_platform.Auth.Verification.{is_usable_hash}
use videum_video_platform.Auth.Requests.{
  Request, register_user, log_in, confirm_email, resend, refresh_tokens, forgot, reset, log_out,
  login_user, login_family, run,
}
use videum_video_platform.Auth.Requests.Frame.{
  refresh_tokens-register, refresh_tokens-confirm, refresh_tokens-resend_confirmation,
  refresh_tokens-forgot_password,
}

-- The opener is the user for whom a login may open a session.
pub data SessionStep (opener family : Option ℕ) (rows rows' : List RefreshToken) : Type 0 where
  idle : rows' ≡ rows → SessionStep opener family rows rows'
  revoked :
      (p : RefreshToken → Bool) (time : ℕ)
      → rows' ≡ update_where p (revoke time) rows
      → SessionStep opener family rows rows'
  opened :
      (r : RefreshToken)
      → opener ≡ some r.user_id
      → family ≡ some r.family
      → rows' ≡ insert r rows
      → SessionStep opener family rows rows'
  rotated :
      (p : RefreshToken → Bool) (old new : RefreshToken) (time : ℕ)
      → find_one p rows ≡ some old
      → old.revoked_at ≡ none
      → new.family ≡ old.family
      → new.user_id ≡ old.user_id
      → rows' ≡ insert new (update_where (λ r. r.id == old.id) (revoke time) rows)
      → SessionStep opener family rows rows'

module _ (k : Crypto) (cfg : AuthConfig) (e : Env) (db : AuthDb) (opener family : Option ℕ) where
  refresh_found-Step :
      (raw : Text) (r : RefreshToken) (revoked_at : Option ℕ)
      → find_one (has_token_hash (k.sha256 raw)) db.refresh_tokens ≡ some r
      → r.revoked_at ≡ revoked_at
      → SessionStep opener family db.refresh_tokens
          (refresh_found k cfg e raw r revoked_at db).1.refresh_tokens
  unfolding refresh new_refresh_token
  refresh_found-Step raw r none found active =
      let raw' = generate_refresh_token k cfg e r.user_id r.family in
      rotated (has_token_hash (k.sha256 raw)) r (new_refresh_token k cfg e raw' r.family r.user_id)
        e.now found active refl refl (ground arith)
  refresh_found-Step raw r (some time) found gone =
      elim (Bool-cases (leb (e.now - time) token_reuse_grace_period_ms)) [
        | inl graced ↦ idle (ground arith)
        | inr late ↦ revoked (is_active_in_family r.family) e.now (ground arith)
      ]

  refresh-Step :
      (raw : Text)
      → SessionStep opener family db.refresh_tokens (refresh k cfg e raw db).1.refresh_tokens
  unfolding refresh
  refresh-Step raw =
      elim (Option-cases (find_one (has_token_hash (k.sha256 raw)) db.refresh_tokens)) [
        | inl unknown ↦ idle (ground arith)
        | inr (r, found) ↦ elim (Bool-cases (ltb r.expires_at e.now)) [
          | inl expired ↦ idle (ground arith)
          | inr live ↦ rw (found, live) (refresh_found-Step raw r r.revoked_at found refl)
        ]
      ]

  reset_password-Step :
      (token new_password : Text)
      → SessionStep opener family db.refresh_tokens
          (reset_password k cfg e token new_password db).1.refresh_tokens
  unfolding reset_password
  reset_password-Step token new_password =
      elim (Option-cases
        (find_one (is_usable_hash (k.sha256 token) password_reset) db.verification_tokens)) [
          | inl unknown ↦ idle (ground arith)
          | inr (r, found) ↦ elim (Bool-cases (ltb r.expires_at e.now)) [
            | inl expired ↦ idle (ground arith)
            | inr live ↦ elim (Option-cases (user_of r.user_id db)) [
              | inl no_user ↦ idle (ground arith)
              | inr (user, has_user) ↦ revoked (is_active_of_user user.id) e.latest (ground arith)
            ]
          ]
        ]

  login-Step :
      (email password : Text)
      → opener ≡ Option.map (λ u. u.id) (find_by_email email db)
      → family ≡ some e.family
      → SessionStep opener family db.refresh_tokens
          (login k cfg e email password db).1.refresh_tokens
  unfolding login new_refresh_token
  login-Step email password who drawn = elim (Option-cases (find_by_email email db)) [
    | inl unknown ↦ idle (ground arith)
    | inr (user, found) ↦ elim (Bool-cases (k.argon2_verify user.password password)) [
      | inl right ↦ elim (Bool-cases user.is_confirmed) [
        | inl confirmed ↦
            let raw = generate_refresh_token k cfg e user.id e.family in
            opened (new_refresh_token k cfg e raw e.family user.id) (ground arith) (ground arith)
              (ground arith)
        | inr unconfirmed ↦ idle (ground arith)
      ]
      | inr wrong ↦ idle (ground arith)
    ]
  ]

module _ (k : Crypto) (cfg : AuthConfig)
    (create_channel : ℕ → Text → Action (List Channel) Channel) where
  -- Every request of the authentication service changes the table of refresh tokens by one step of
  -- the specification: it leaves the table alone, revokes the rows that meet a condition, adds a
  -- row for the user whom a login names, or revokes a row that was active and adds one of the same
  -- family and user.
  pub run-SessionStep :
      (req : Request) (db : AuthDb)
      → SessionStep
          (login_user req db)
          (login_family req)
          db.refresh_tokens
          (run k cfg create_channel req db).refresh_tokens
  unfolding run logout
  run-SessionStep (register_user e email password) db =
      idle (refresh_tokens-register k cfg create_channel e email password db)
  run-SessionStep (log_in e email password) db =
      login-Step k cfg e db _ (some e.family) email password refl refl
  run-SessionStep (confirm_email e token) db = idle (refresh_tokens-confirm k cfg e db token)
  run-SessionStep (resend e email) db = idle (refresh_tokens-resend_confirmation k cfg e db email)
  run-SessionStep (refresh_tokens e raw) db = refresh-Step k cfg e db none none raw
  run-SessionStep (forgot e email) db = idle (refresh_tokens-forgot_password k cfg e db email)
  run-SessionStep (reset e token new_password) db =
      reset_password-Step k cfg e db none none token new_password
  run-SessionStep (log_out e user_id) db = revoked (is_active_of_user user_id) e.latest refl

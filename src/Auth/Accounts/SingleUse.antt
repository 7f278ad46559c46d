-- ===== src/Auth/Accounts/SingleUse.antt =====
-- Verification tokens over any sequence of requests to nestjs-project/src/auth/auth.service.ts: a
-- token that was used stays used.
use videum_video_platform.Common.{
  ℕ, ◌≡◌, ◌≢◌, true, false, inl, inr, List, [], ◌∷◌, some, Text, Action, All, find_one,
  update_where, ltb, ◌==◌, ok, err, invalid_token, Bool-cases, Option-cases, arith,
}
use videum_video_platform.Common.Tables.Laws.{find_one-none, All-update_where}
use videum_video_platform.Channels.Channel.{Channel}
use videum_video_platform.Auth.Model.{
  VerificationToken, VerificationTokenType, email_confirmation, password_reset, AuthDb, AuthConfig,
  Crypto, Env,
}
use videum_video_platform.Auth.Sessions.{user_of}
use videum_video_platform.Auth.Verification.{is_usable_hash, use_at}
use videum_video_platform.Auth.Accounts.{confirm, reset_password}
use videum_video_platform.Auth.Requests.{Request, run, run_all}
use videum_video_platform.Auth.Accounts.TokenSteps.{
  AllSpent, TokenStep-AllSpent, fresh_hash, run-TokenStep,
}

module _ (k : Crypto) (cfg : AuthConfig)
    (create_channel : ℕ → Text → Action (List Channel) Channel) where
  -- No request of the sequence draws a token of the digest.
  abbrev pub AvoidsHash : ℕ → List Request → Type 0
  AvoidsHash h [] = Unit
  AvoidsHash h (req ∷ reqs) = (fresh_hash k req ≢ some h) × AvoidsHash h reqs

  run_all-AllSpent :
      (h : ℕ) (type : VerificationTokenType) (reqs : List Request) (db : AuthDb)
      → AllSpent h type db.verification_tokens
      → AvoidsHash h reqs
      → AllSpent h type (run_all k cfg create_channel reqs db).verification_tokens
  unfolding run_all
  run_all-AllSpent h type [] db spent avoids = spent
  run_all-AllSpent h type (req ∷ reqs) db spent (other, avoids) =
      run_all-AllSpent h type reqs (run k cfg create_channel req db)
        (TokenStep-AllSpent h type _ _ _ (run-TokenStep k cfg create_channel req db) other spent)
        avoids

-- The rows that could be used are all the one that is marked.
AllSpent-save_used :
    (h : ℕ) (type : VerificationTokenType) (id time : ℕ) (rows : List VerificationToken)
    → All (λ x. is_usable_hash h type x ≡ true → x.id ≡ id) rows
    → AllSpent h type (update_where (λ row. row.id == id) (use_at time) rows)
AllSpent-save_used h type id time rows only =
    All-update_where (λ x. is_usable_hash h type x ≡ true → x.id ≡ id) _ _ (use_at time) rows
      (λ x mine hit. ground arith) (λ x mine miss. unusable x mine miss) only
  where
    unusable :
        (x : VerificationToken)
        → (is_usable_hash h type x ≡ true → x.id ≡ id)
        → (x.id == id) ≡ false
        → is_usable_hash h type x ≡ false
    unusable x mine miss = elim (Bool-cases (is_usable_hash h type x)) [
      | inl usable ↦ (let same = mine usable in absurd (ground arith))
      | inr dead ↦ dead
    ]

module _ (k : Crypto) (cfg : AuthConfig) (e : Env) (token : Text) (db : AuthDb)
    (r : VerificationToken) where
  confirm-AllSpent :
      All
        (λ x. is_usable_hash (k.sha256 token) email_confirmation x ≡ true → x.id ≡ r.id)
        db.verification_tokens
      → find_one (is_usable_hash (k.sha256 token) email_confirmation) db.verification_tokens
        ≡ some r
      → (confirm k cfg e token db).0 ≡ ok tt
      → AllSpent
          (k.sha256 token)
          email_confirmation
          (confirm k cfg e token db).1.verification_tokens
  unfolding confirm
  confirm-AllSpent only found done =
      let spent =
        AllSpent-save_used (k.sha256 token) email_confirmation r.id e.later db.verification_tokens
          only in
      elim (Bool-cases (ltb r.expires_at e.now)) [
        | inl expired ↦ absurd (ground arith)
        | inr live ↦ elim (Option-cases (user_of r.user_id db)) [
          | inl no_user ↦ absurd (ground arith)
          | inr (user, has_user) ↦ rw (found, live, has_user) spent
        ]
      ]

  reset_password-AllSpent :
      (new_password : Text)
      → All
          (λ x. is_usable_hash (k.sha256 token) password_reset x ≡ true → x.id ≡ r.id)
          db.verification_tokens
      → find_one (is_usable_hash (k.sha256 token) password_reset) db.verification_tokens ≡ some r
      → (reset_password k cfg e token new_password db).0 ≡ ok tt
      → AllSpent
          (k.sha256 token)
          password_reset
          (reset_password k cfg e token new_password db).1.verification_tokens
  unfolding reset_password
  reset_password-AllSpent new_password only found done =
      let spent =
        AllSpent-save_used (k.sha256 token) password_reset r.id e.later db.verification_tokens
          only in
      elim (Bool-cases (ltb r.expires_at e.now)) [
        | inl expired ↦ absurd (ground arith)
        | inr live ↦ elim (Option-cases (user_of r.user_id db)) [
          | inl no_user ↦ absurd (ground arith)
          | inr (user, has_user) ↦ rw (found, live, has_user) spent
        ]
      ]

module _ (k : Crypto) (cfg : AuthConfig) (e : Env) (token : Text) (db : AuthDb) where
  confirm-of_AllSpent :
      AllSpent (k.sha256 token) email_confirmation db.verification_tokens
      → confirm k cfg e token db ≡ (err invalid_token, db)
  unfolding confirm
  confirm-of_AllSpent spent = rw (find_one-none _ db.verification_tokens spent)

  reset_password-of_AllSpent :
      (new_password : Text)
      → AllSpent (k.sha256 token) password_reset db.verification_tokens
      → reset_password k cfg e token new_password db ≡ (err invalid_token, db)
  unfolding reset_password
  reset_password-of_AllSpent new_password spent = rw (find_one-none _ db.verification_tokens spent)

module _ (k : Crypto) (cfg : AuthConfig) (create_channel : ℕ → Text → Action (List Channel) Channel)
    (e : Env) (token : Text) (db : AuthDb) (r : VerificationToken) (reqs : List Request)
    (e' : Env) where
  -- A confirmation token works once: after a successful `confirm`, whatever requests follow, as long
  -- as none draws a token of the same digest, `confirm` refuses the token with `INVALID_TOKEN` and
  -- writes nothing. It is assumed that the row that was found is the only one of its digest and
  -- type that can be used.
  pub confirm-single_use :
      All
        (λ x. is_usable_hash (k.sha256 token) email_confirmation x ≡ true → x.id ≡ r.id)
        db.verification_tokens
      → find_one (is_usable_hash (k.sha256 token) email_confirmation) db.verification_tokens
        ≡ some r
      → (confirm k cfg e token db).0 ≡ ok tt
      → AvoidsHash k cfg create_channel (k.sha256 token) reqs
      → let db' = run_all k cfg create_channel reqs (confirm k cfg e token db).1 in
        confirm k cfg e' token db' ≡ (err invalid_token, db')
  confirm-single_use only found done avoids = confirm-of_AllSpent k cfg e' token _ (
      run_all-AllSpent k cfg create_channel _ email_confirmation reqs _
        (confirm-AllSpent k cfg e token db r only found done) avoids)

  -- A reset token works once: after a successful `resetPassword`, whatever requests follow, as long
  -- as none draws a token of the same digest, `resetPassword` refuses the token with `INVALID_TOKEN`
  -- and writes nothing. It is assumed that the row that was found is the only one of its digest and
  -- type that can be used.
  pub reset_password-single_use :
      (new_password new_password' : Text)
      → All
          (λ x. is_usable_hash (k.sha256 token) password_reset x ≡ true → x.id ≡ r.id)
          db.verification_tokens
      → find_one (is_usable_hash (k.sha256 token) password_reset) db.verification_tokens ≡ some r
      → (reset_password k cfg e token new_password db).0 ≡ ok tt
      → AvoidsHash k cfg create_channel (k.sha256 token) reqs
      → let db' =
          run_all k cfg create_channel reqs (reset_password k cfg e token new_password db).1 in
        reset_password k cfg e' token new_password' db' ≡ (err invalid_token, db')
  reset_password-single_use new_password new_password' only found done avoids =
      reset_password-of_AllSpent k cfg e' token _ new_password' (
        run_all-AllSpent k cfg create_channel _ password_reset reqs _
          (reset_password-AllSpent k cfg e token db r new_password only found done) avoids)

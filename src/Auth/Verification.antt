-- ===== src/Auth/Verification.antt =====
-- Verification tokens in nestjs-project/src/auth/auth.service.ts: their creation, use and
-- invalidation.
use videum_video_platform.Common.{
  ℕ, ◌+◌, ◌*◌, Bool, true, false, ◌&&◌, not, Option, none, some, Text, Action, ◌>>=◌, ◌>>◌, pure,
  throw_if, or_throw, gets, modify, invalid_token, token_expired, find_one, update_where, insert,
  is_some, ltb, ◌==◌,
}
use videum_video_platform.Auth.Model.{
  User, VerificationToken, VerificationTokenType, email_confirmation, password_reset, AuthDb,
  Crypto, Env,
}
use videum_video_platform.Auth.Sessions.{user_of}

abbrev pub type_eq : VerificationTokenType → VerificationTokenType → Bool
type_eq email_confirmation email_confirmation = true
type_eq email_confirmation password_reset = false
type_eq password_reset email_confirmation = false
type_eq password_reset password_reset = true

-- `used_at IS NULL`
abbrev pub is_unused : VerificationToken → Bool
is_unused r = not (is_some r.used_at)

abbrev pub is_usable_hash : ℕ → VerificationTokenType → VerificationToken → Bool
is_usable_hash h type r = r.token_hash == h && type_eq r.type type && is_unused r

-- `user_id = :userId AND type = :type AND used_at IS NULL`
abbrev pub is_unused_of_user : ℕ → VerificationTokenType → VerificationToken → Bool
is_unused_of_user user_id type r = r.user_id == user_id && type_eq r.type type && is_unused r

abbrev pub use_at : ℕ → VerificationToken → VerificationToken
use_at time r = record r { used_at = some time }

-- `invalidateActiveVerificationTokens`
unfoldable pub invalidate_active_verification_tokens :
    Env → ℕ → VerificationTokenType → Action AuthDb (Unit {0})
invalidate_active_verification_tokens e user_id type = modify (λ db. record db {
  verification_tokens =
      update_where (is_unused_of_user user_id type) (use_at e.now) db.verification_tokens;
})

-- `verificationTokenRepository.save` of a row that was used at the given time.
unfoldable pub save_used : VerificationToken → ℕ → AuthDb → AuthDb
save_used r time db = record db {
  verification_tokens = update_where (λ row. row.id == r.id) (use_at time) db.verification_tokens;
}

module _ (k : Crypto) where
  -- `createVerificationToken`
  unfoldable pub create_verification_token :
      Env → ℕ → VerificationTokenType → ℕ → Action AuthDb Text
  create_verification_token e user_id type expiration_hours = do
    let token : VerificationToken = record {
      id = e.row_id;
      token_hash = k.sha256 e.raw_token;
      type = type;
      user_id = user_id;
      expires_at = e.now + expiration_hours * 60 * 60 * 1000;
      used_at = none;
    }
    modify (λ db. record db { verification_tokens = insert token db.verification_tokens })
    pure e.raw_token

  -- `consumeVerificationToken`: the row and its user. The row's new `used_at`, `e.later`, is only
  -- written when the caller saves the row.
  unfoldable pub consume_verification_token :
      Env → Text → VerificationTokenType → Action AuthDb (VerificationToken × Option User)
  consume_verification_token e token type = do
    found ← gets (λ db. find_one (is_usable_hash (k.sha256 token) type) db.verification_tokens)
    r ← or_throw found invalid_token
    throw_if (ltb r.expires_at e.now) token_expired
    user ← gets (user_of r.user_id)
    pure (use_at e.later r, user)

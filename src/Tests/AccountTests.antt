-- ===== src/Tests/AccountTests.antt =====
-- The theorems on accounts and tokens, at the users and stand-ins of the tests on sessions.
use videum_video_platform.Common.{
  ℕ, ◌+◌, ◌*◌, ◌≡◌, refl, false, List, [], ◌∷◌, none, some, Text, codes, text_eq, text_eq_refl,
  find_one, insert, ok, err, Action, invalid_token, invalid_credentials, email_not_confirmed, arith,
  ◌==◌,
}
use videum_video_platform.Channels.Channel.{Channel}
use videum_video_platform.Mail.{confirmation_mail}
use videum_video_platform.Auth.Model.{
  User, VerificationToken, email_confirmation, password_reset, AuthDb, Crypto, TokenPair,
}
use videum_video_platform.Auth.Sessions.{
  refresh, login, generate_access_token, generate_refresh_token, user_of, revoke, has_token_hash,
}
use videum_video_platform.Auth.Sessions.Rotation.{refresh_rotates}
use videum_video_platform.Auth.Sessions.Login.{refresh-login}
use videum_video_platform.Auth.Duration.{
  jwt_expiration_to_ms, is_digit, parse_int, unit_ms, expiration_value, to_double,
}
use videum_video_platform.Auth.Duration.Format.{decimal_value, jwt_expiration_to_ms-format}
use videum_video_platform.Auth.Accounts.{register, confirm, reset_password}
use videum_video_platform.Auth.Accounts.SingleUse.{confirm-single_use, reset_password-single_use}
use videum_video_platform.Auth.Accounts.Reset.{reset_password-login}
use videum_video_platform.Auth.Accounts.Registration.{register-confirm-login}
use videum_video_platform.Users.{find_by_email}
use videum_video_platform.Auth.Requests.{log_out, forgot, run_all}
use videum_video_platform.Auth.Requests.Revocation.{NoneActive}
use videum_video_platform.Tests.AuthTests.{
  digest, crypto, config, env_at, ann, ann_token, db, no_channel,
}

-- Ann before her confirmation, with a token of each type: the digest of `5 ∷ []` is 65541.
abbrev bob : User
bob = record ann { is_confirmed = false }

abbrev confirmation : VerificationToken
confirmation = record {
  id = 30;
  token_hash = 65541;
  type = email_confirmation;
  user_id = 1;
  expires_at = 90000;
  used_at = none;
}

abbrev password_token : VerificationToken
password_token = record confirmation { id = 31; token_hash = 65542; type = password_reset }

abbrev token_db : AuthDb
token_db = record db { users = bob ∷ []; verification_tokens = confirmation ∷ password_token ∷ [] }

abbrev reset_db : AuthDb
reset_db = record token_db { users = ann ∷ [] }

confirm-single_use_example :
    confirm crypto config (env_at 70 3) (5 ∷ []) (
      run_all crypto config no_channel
        (forgot (env_at 60 2) (codes "ann@x.org") ∷ [])
        (confirm crypto config (env_at 50 1) (5 ∷ []) token_db).1)
    ≡ (
      err invalid_token,
      run_all crypto config no_channel
          (forgot (env_at 60 2) (codes "ann@x.org") ∷ [])
          (confirm crypto config (env_at 50 1) (5 ∷ []) token_db).1,
    )
unfolding confirm find_one user_of
confirm-single_use_example =
    confirm-single_use crypto config no_channel (env_at 50 1) (5 ∷ []) token_db confirmation
      (forgot (env_at 60 2) (codes "ann@x.org") ∷ []) (env_at 70 3)
      ((λ p. refl), ((λ p. ground arith), tt)) refl refl ((λ p. ground arith), tt)

reset_password-single_use_example :
    reset_password crypto config (env_at 70 3) (6 ∷ []) (codes "another1") (
      run_all crypto config no_channel
        (log_out (env_at 60 2) 1 ∷ [])
        (reset_password crypto config (env_at 50 1) (6 ∷ []) (codes "newsecret") reset_db).1)
    ≡ (
      err invalid_token,
      run_all crypto config no_channel
          (log_out (env_at 60 2) 1 ∷ [])
          (reset_password crypto config (env_at 50 1) (6 ∷ []) (codes "newsecret") reset_db).1,
    )
unfolding reset_password find_one user_of
reset_password-single_use_example =
    reset_password-single_use crypto config no_channel (env_at 50 1) (6 ∷ []) reset_db
      password_token (log_out (env_at 60 2) 1 ∷ []) (env_at 70 3) (codes "newsecret")
      (codes "another1") ((λ p. ground arith), ((λ p. refl), tt)) refl refl ((λ p. cc), tt)

-- A library whose digests keep the salt and verify exactly the password they were made from.
abbrev drop_salt : Text → Text
drop_salt [] = []
drop_salt (salt ∷ password) = password

abbrev salted : Crypto
salted = record crypto { argon2_verify = λ stored password. text_eq (drop_salt stored) password }

reset_password-login_example :
    let db' =
      (reset_password salted config (env_at 50 1) (6 ∷ []) (codes "newsecret") reset_db).1 in
    ((reset_password salted config (env_at 50 1) (6 ∷ []) (codes "newsecret") reset_db).0 ≡ ok tt)
    × NoneActive (λ f v. v == 1) db'.refresh_tokens
    × ((pair : TokenPair) × ((login salted config
            (env_at 60 2)
            (codes "ann@x.org")
            (codes "newsecret")
            db').0
          ≡ ok pair))
    × ((login salted config (env_at 60 2) (codes "ann@x.org") (codes "secret99") db').0
        ≡ err invalid_credentials)
unfolding find_one user_of find_by_email text_eq
reset_password-login_example =
    reset_password-login salted config (env_at 50 1) (env_at 60 2) (6 ∷ []) (codes "newsecret")
      (codes "secret99") reset_db password_token ann (λ salt password. text_eq_refl password)
      (record { known = refl; alive = refl; owned = refl }) refl refl refl

abbrev eve_channel : Channel
eve_channel = record {
  id = 1;
  name = codes "eve";
  nickname = codes "eve";
  description = none;
  user_id = 301;
}

abbrev one_channel : ℕ → Text → Action (List Channel) Channel
one_channel user_id email channels = (ok eve_channel, eve_channel ∷ [])

register-confirm-login_example :
    let db1 =
      (register salted config one_channel
        (env_at 50 1)
        (codes "eve@x.org")
        (codes "secret99")
        token_db).1 in
    let db2 = (confirm salted config (env_at 70 3) (501 ∷ []) db1).1 in
    ((register salted config one_channel
        (env_at 50 1)
        (codes "eve@x.org")
        (codes "secret99")
        token_db).0
      ≡ ok (record { id = 301; email = codes "eve@x.org" }))
    × (db1.outbox
        ≡ confirmation_mail
            (codes "http://localhost:3000")
            (codes "eve@x.org")
            (codes "eve")
            (501 ∷ [])
          ∷ [])
    × ((login salted config (env_at 60 2) (codes "eve@x.org") (codes "secret99") db1).0
        ≡ err email_not_confirmed)
    × ((confirm salted config (env_at 70 3) (501 ∷ []) db1).0 ≡ ok tt)
    × ((pair : TokenPair) × ((login salted config
            (env_at 80 4)
            (codes "eve@x.org")
            (codes "secret99")
            db2).0
          ≡ ok pair))
unfolding find_by_email find_one text_eq
register-confirm-login_example =
    register-confirm-login salted config one_channel (env_at 50 1) (env_at 60 2) (env_at 70 3)
      (env_at 80 4) (codes "eve@x.org") (codes "secret99") token_db eve_channel (eve_channel ∷ [])
      (λ salt password. text_eq_refl password) refl refl refl (refl, tt) (refl, (refl, tt))
      (omega arith)

abbrev ann_raw : Text
ann_raw = 1 ∷ 101 ∷ 201 ∷ []

refresh-login_example :
    (refresh crypto config
      (env_at 60 2)
      ann_raw
      (login crypto config (env_at 50 1) (codes "ann@x.org") (codes "secret99") db).1).0
    ≡ ok (record { access_token = 1 ∷ 60 ∷ []; refresh_token = 1 ∷ 101 ∷ 202 ∷ [] })
unfolding login find_by_email find_one text_eq user_of generate_access_token generate_refresh_token
    jwt_expiration_to_ms insert parse_int unit_ms expiration_value to_double
refresh-login_example =
    refresh-login crypto config (env_at 50 1) (env_at 60 2) db (codes "ann@x.org")
      (codes "secret99") ann (record { known = refl; right_password = refl; confirmed = refl }) refl
      refl refl (omega arith)

refresh_rotates_example :
    ((refresh crypto config (env_at 60 2) (2 ∷ []) db).0
      ≡ ok (record { access_token = 1 ∷ 60 ∷ []; refresh_token = 1 ∷ 20 ∷ 202 ∷ [] }))
    × (find_one
          (has_token_hash (digest (1 ∷ 20 ∷ 202 ∷ [])))
          (refresh crypto config (env_at 60 2) (2 ∷ []) db).1.refresh_tokens
        ≡ some (record {
          id = 402;
          token_hash = digest (1 ∷ 20 ∷ 202 ∷ []);
          family = 20;
          user_id = 1;
          expires_at = 60 + 604800000;
          revoked_at = none;
        }))
    × (find_one
          (has_token_hash 65538)
          (refresh crypto config (env_at 60 2) (2 ∷ []) db).1.refresh_tokens
        ≡ some (revoke 60 ann_token))
unfolding find_one user_of generate_refresh_token jwt_expiration_to_ms parse_int unit_ms
    expiration_value to_double
refresh_rotates_example =
    refresh_rotates crypto config (env_at 60 2) (2 ∷ []) db ann_token refl (omega arith) ann refl
      refl refl

jwt_expiration_to_ms-format_example :
    (jwt_expiration_to_ms (codes "15s") ≡ decimal_value (codes "15") * 1000)
    × (jwt_expiration_to_ms (codes "15m") ≡ decimal_value (codes "15") * (60 * 1000))
    × (jwt_expiration_to_ms (codes "15h") ≡ decimal_value (codes "15") * (60 * 60 * 1000))
    × (jwt_expiration_to_ms (codes "15d") ≡ decimal_value (codes "15") * (24 * 60 * 60 * 1000))
    × (jwt_expiration_to_ms (codes "15w") ≡ 0)
unfolding is_digit decimal_value
jwt_expiration_to_ms-format_example =
    jwt_expiration_to_ms-format (codes "15") b'w' (refl, (refl, tt)) (omega arith) refl
      (λ e. ground arith) (λ e. ground arith) (λ e. ground arith) (λ e. ground arith)

-- ===== src/Frontend/Forms.antt =====
-- next-frontend/lib/auth/error-mapping.ts, and the errors of the upstream
-- (nestjs-project/src/auth/auth.service.ts) as the forms show them.
use videum_video_platform.Common.{
  ◌≡◌, ◌≢◌, ◌↔◌, refl, ◌++◌, List, [], ◌∷◌, some, Text, codes, err, Exception, email_not_confirmed,
  invalid_credentials, ◌⊎◌, inl, inr, ◌==◌, if◌then◌else◌, arith,
}
use videum_video_platform.Auth.Model.{AuthDb, AuthConfig, Crypto, Env}
use videum_video_platform.Auth.Sessions.{login}
use videum_video_platform.Http.Errors.{
  Message, one, many, ApiErrorEnvelope, filter_domain_exception,
}

-- `message.join(" ")`
unfoldable pub join : List Text → Text
join [] = []
join (text ∷ []) = text
join (text ∷ next ∷ texts) = text ++ (codes " " ++ join (next ∷ texts))

-- `flattenMessage`
abbrev pub flatten_message : Message → Text
flatten_message (many texts) = join texts
flatten_message (one text) = text

pub data Field : Type 0 where
  email_field root_server_error root_confirmation : Field

-- A call of `setError`.
pub record FormError : Type 0 where
  pub field : Field
  pub message : Text

-- `mapSignupErrorToForm`
unfoldable pub map_signup_error_to_form : ApiErrorEnvelope → FormError
map_signup_error_to_form envelope = record {
  field = if envelope.status_code == 409 then email_field else root_server_error;
  message = flatten_message envelope.message;
}

-- `mapLoginErrorToForm`
unfoldable pub map_login_error_to_form : ApiErrorEnvelope → FormError
map_login_error_to_form envelope = record {
  field =
      if envelope.status_code == 403
      then root_confirmation
      else if envelope.status_code == 400
      then email_field
      else root_server_error;
  message = flatten_message envelope.message;
}

-- `mapForgotPasswordErrorToForm`
unfoldable pub map_forgot_password_error_to_form : ApiErrorEnvelope → FormError
map_forgot_password_error_to_form envelope = record {
  field = if envelope.status_code == 400 then email_field else root_server_error;
  message = flatten_message envelope.message;
}

-- What `login` throws.
login-errors :
    (k : Crypto) (cfg : AuthConfig) (e : Env) (email password : Text) (db : AuthDb) (x : Exception)
    → (login k cfg e email password db).0 ≡ err x
    → (x ≡ email_not_confirmed) ⊎ (x ≡ invalid_credentials)
unfolding login
login-errors k cfg e email password db x failed = ground arith

-- The login form offers to send the confirmation again exactly for those errors of the upstream's
-- `login` that say that the email is not confirmed; it shows the other errors of the
-- domain in the form's alert.
pub login-form_iff :
    (k : Crypto) (cfg : AuthConfig) (e : Env) (email password : Text) (db : AuthDb) (x : Exception)
    (reply : ApiErrorEnvelope)
    → (login k cfg e email password db).0 ≡ err x
    → filter_domain_exception x ≡ some reply
    → (((map_login_error_to_form reply).field ≡ root_confirmation) ↔ (x ≡ email_not_confirmed))
      × (((map_login_error_to_form reply).field ≡ root_server_error) ↔ (x ≢ email_not_confirmed))
unfolding filter_domain_exception map_login_error_to_form
login-form_iff k cfg e email password db x reply failed caught =
    elim (login-errors k cfg e email password db x failed) [
      | inl waiting ↦
          let status : reply.status_code ≡ 403 = ground arith in
          rw (waiting, status) ((λ p. refl, λ p. refl), (λ p. cc, λ p. absurd (p refl)))
      | inr wrong ↦
          let status : reply.status_code ≡ 401 = ground arith in
          rw (wrong, status) ((λ p. cc, λ p. cc), (λ p q. cc, λ p. refl))
    ]

-- ===== src/Frontend/Entry.antt =====
-- The forms next-frontend/components/auth/login-form.tsx and
-- next-frontend/components/auth/forgot-password-form.tsx: their schemas, submissions and what they
-- show. `z.email` is an argument.
pub mod Outcome
pub mod Login
use videum_video_platform.Common.{
  ℕ, [], Bool, true, false, not, ◌||◌, Option, none, some, Text, codes, length, ltb, is_some,
  if◌then◌else◌,
}
use videum_video_platform.Http.Errors.{ApiErrorEnvelope}
use videum_video_platform.Frontend.Forms.{
  Field, email_field, root_server_error, root_confirmation, FormError, map_login_error_to_form,
  map_forgot_password_error_to_form,
}
use videum_video_platform.Frontend.Bff.{RouteReply, is_ok}
use videum_video_platform.Frontend.Signup.{Issue, issue_if, FieldView, field_view, shown}

-- The errors of the two forms; the one without a password has none at it.
pub record EntryErrors : Type 0 where
  pub email : Option Issue
  pub password : Option Issue
  -- `root.serverError`
  pub root : Option Issue
  -- `root.confirmation`
  pub confirmation : Option Issue

abbrev pub no_entry_errors : EntryErrors
no_entry_errors = record { email = none; password = none; root = none; confirmation = none }

abbrev pub has_entry_errors : EntryErrors → Bool
has_entry_errors e = is_some e.email || is_some e.password

module _ (is_zod_email : Text → Bool) where
  -- `loginSchema`
  unfoldable pub login_schema : Text → Text → EntryErrors
  login_schema email password = record no_entry_errors {
    email = issue_if (not (is_zod_email email)) (codes "Invalid email address") none;
    password = issue_if (ltb (length password) 1) (codes "Enter your password") none;
  }

  -- `forgotPasswordSchema`
  unfoldable pub forgot_password_schema : Text → EntryErrors
  forgot_password_schema email = record no_entry_errors {
    email = issue_if (not (is_zod_email email)) (codes "Invalid email address") none;
  }

abbrev pub set_entry_error_at : Field → Issue → EntryErrors → EntryErrors
set_entry_error_at email_field issue e = record e { email = some issue }
set_entry_error_at root_server_error issue e = record e { root = some issue }
set_entry_error_at root_confirmation issue e = record e { confirmation = some issue }

abbrev pub set_entry_error : FormError → EntryErrors → EntryErrors
set_entry_error error e =
    set_entry_error_at error.field (record { is_server = true; message = error.message }) e

-- What a form keeps between renders: `done` is `sent` in the one, and in the other whether
-- `router.refresh()` has been called.
pub record EntryState : Type 0 where
  pub email : Text
  pub password : Text
  pub errors : EntryErrors
  pub is_submitting : Bool
  pub done : Bool

-- `onSubmit` once the response is there, by the form's mapping of errors.
abbrev pub after_entry_envelope :
    (ApiErrorEnvelope → FormError) → Option ApiErrorEnvelope → EntryState → EntryState
after_entry_envelope error_of none st = st
after_entry_envelope error_of (some envelope) st = record st {
  errors = set_entry_error (error_of envelope) st.errors;
}

abbrev pub after_entry : (ApiErrorEnvelope → FormError) → RouteReply → EntryState → EntryState
after_entry error_of reply st =
    if not (is_ok reply)
    then after_entry_envelope error_of reply.envelope st
    else record st { done = true }

-- `handleSubmit`, by what the schema finds, the mapping of errors and the request.
abbrev pub submit_entry :
    {S : Type 0}
    → EntryErrors
    → (ApiErrorEnvelope → FormError)
    → (S → RouteReply × S)
    → EntryState
    → S
    → EntryState × S
submit_entry errors error_of post st s =
    if has_entry_errors errors
    then (record st { errors = errors }, s)
    else (after_entry error_of (post s).0 (record st { errors = no_entry_errors }), (post s).1)

module _ (is_zod_email : Text → Bool) {S : Type 0} where
  -- `LoginForm`: `handleSubmit(onSubmit)`
  unfoldable pub submit_login : (Text → Text → S → RouteReply × S) → EntryState → S → EntryState × S
  unfolding login_schema map_login_error_to_form
  submit_login post st s =
      submit_entry (login_schema is_zod_email st.email st.password) map_login_error_to_form
        (post st.email st.password) st s

  -- `ForgotPasswordForm`: `handleSubmit(onSubmit)`
  unfoldable pub submit_forgot_password :
      (Text → S → RouteReply × S) → EntryState → S → EntryState × S
  unfolding forgot_password_schema map_forgot_password_error_to_form
  submit_forgot_password post st s =
      submit_entry (forgot_password_schema is_zod_email st.email) map_forgot_password_error_to_form
        (post st.email) st s

pub record LoginView : Type 0 where
  pub alert : Option Text
  -- the alert with the link to `/resend-confirmation`
  pub resend_alert : Option Text
  pub email : FieldView
  pub password : FieldView
  pub submit_disabled : Bool
  pub submit_label : Text

-- `LoginForm`
unfoldable pub render_login : EntryState → LoginView
render_login st = record {
  alert = shown st.errors.root;
  resend_alert = shown st.errors.confirmation;
  email =
      field_view (codes "email") (codes "Email address") (codes "email") (codes "email")
        (codes "Enter your email") st.errors.email;
  password =
      field_view (codes "password") (codes "Password") (codes "password") (codes "current-password")
        [] st.errors.password;
  submit_disabled = st.is_submitting;
  submit_label = if st.is_submitting then codes "Signing in…" else codes "Sign in";
}

pub record ForgotPasswordFormView : Type 0 where
  pub alert : Option Text
  pub email : FieldView
  pub submit_disabled : Bool
  pub submit_label : Text

pub data ForgotPasswordView : Type 0 where
  forgot_password_success : ForgotPasswordView
  forgot_password_form : ForgotPasswordFormView → ForgotPasswordView

-- `ForgotPasswordForm`
unfoldable pub render_forgot_password : EntryState → ForgotPasswordView
render_forgot_password st =
    if st.done
    then forgot_password_success
    else forgot_password_form (record {
      alert = shown st.errors.root;
      email =
          field_view (codes "email") (codes "Email address") (codes "email") (codes "email")
            (codes "Enter your email") st.errors.email;
      submit_disabled = st.is_submitting;
      submit_label = if st.is_submitting then codes "Sending…" else codes "Send reset link";
    })

-- ===== src/Frontend/Signup.antt =====
-- next-frontend/components/auth/signup-form.tsx: the schema of its values, its submission, and what
-- it shows. `z.email` is an argument. A field shows the first of its checks that fails, and a
-- submission forgets the errors of the one before.
pub mod Schema
pub mod Steps
pub mod Outcome
use videum_video_platform.Common.{
  ℕ, Bool, true, false, not, ◌&&◌, ◌||◌, [], ◌∷◌, Option, none, some, Text, codes, text_eq, length,
  ltb, is_some, ◌==◌, if◌then◌else◌,
}
use videum_video_platform.Frontend.Strength.{
  StrengthLevel, test, is_lower, is_upper, is_digit, get_strength_level,
}
use videum_video_platform.Frontend.Forms.{
  Field, email_field, root_server_error, root_confirmation, FormError, map_signup_error_to_form,
}
use videum_video_platform.Frontend.Bff.{RouteReply, is_ok}
use videum_video_platform.Http.Errors.{ApiErrorEnvelope}

pub record SignupValues : Type 0 where
  pub full_name : Text
  pub email : Text
  pub password : Text
  pub confirm_password : Text
  pub terms : Bool

-- An entry of `formState.errors`; `type` is "server" for those of `setError`.
pub record Issue : Type 0 where
  pub is_server : Bool
  pub message : Text

pub record SignupErrors : Type 0 where
  pub full_name : Option Issue
  pub email : Option Issue
  pub password : Option Issue
  pub confirm_password : Option Issue
  pub terms : Option Issue
  -- `root.serverError`
  pub root : Option Issue

-- `[a-zA-Z]`
abbrev pub is_letter : ℕ → Bool
is_letter c = is_lower c || is_upper c

abbrev pub issue_if : Bool → Text → Option Issue → Option Issue
issue_if failed message next =
    if failed then some (record { is_server = false; message = message }) else next

-- `signupSchema`
module _ (is_zod_email : Text → Bool) where
  unfoldable pub signup_schema : SignupValues → SignupErrors
  signup_schema v = record {
    full_name = issue_if (ltb (length v.full_name) 1) (codes "Enter your full name") none;
    email = issue_if (not (is_zod_email v.email)) (codes "Invalid email address") none;
    password = issue_if (ltb (length v.password) 8) (codes "Minimum 8 characters") (
        issue_if (not (test is_letter v.password)) (codes "Include at least one letter")
          (issue_if (not (test is_digit v.password)) (codes "Include at least one number") none));
    confirm_password =
        issue_if (ltb (length v.confirm_password) 1) (codes "Confirm your password") (
          issue_if (not (text_eq v.password v.confirm_password)) (codes "Passwords do not match")
            none);
    terms = issue_if (not v.terms) (codes "You must accept the terms") none;
    root = none;
  }

abbrev pub has_errors : SignupErrors → Bool
has_errors e =
    is_some e.full_name
    || is_some e.email
    || is_some e.password
    || is_some e.confirm_password
    || is_some e.terms
    || is_some e.root

-- What the form keeps between renders.
pub record SignupState : Type 0 where
  pub values : SignupValues
  pub errors : SignupErrors
  pub is_submitting : Bool
  -- the type of the two password inputs, `text` where it is true
  pub shows_password : Bool
  pub shows_confirm : Bool
  pub created : Bool

abbrev pub no_errors : SignupErrors
no_errors = record {
  full_name = none;
  email = none;
  password = none;
  confirm_password = none;
  terms = none;
  root = none;
}

abbrev pub set_error_at : Field → Issue → SignupErrors → SignupErrors
set_error_at email_field issue e = record e { email = some issue }
set_error_at root_server_error issue e = record e { root = some issue }
set_error_at root_confirmation issue e = e

-- `setError`, of type "server"
abbrev pub set_error : FormError → SignupErrors → SignupErrors
set_error error e =
    set_error_at error.field (record { is_server = true; message = error.message }) e

-- `onSubmit` once the response is there; no envelope stands for a body that is not JSON, at which
-- the call throws.
abbrev pub after_envelope : Option ApiErrorEnvelope → SignupState → SignupState
after_envelope none st = st
after_envelope (some envelope) st = record st {
  errors = set_error (map_signup_error_to_form envelope) st.errors;
}

unfoldable pub after_signup : RouteReply → SignupState → SignupState
after_signup reply st =
    if not (is_ok reply) then after_envelope reply.envelope st else record st { created = true }

module _ (is_zod_email : Text → Bool) {S : Type 0} (post : Text → Text → S → RouteReply × S) where
  -- `handleSubmit(onSubmit)`; the argument posts the email and the password to the route.
  unfoldable pub submit_signup : SignupState → S → SignupState × S
  unfolding signup_schema after_signup
  submit_signup st s =
      let errors = signup_schema is_zod_email st.values in
      if has_errors errors then (record st { errors = errors }, s) else (
        after_signup (post st.values.email st.values.password s).0
            (record st { errors = no_errors }),
        (post st.values.email st.values.password s).1,
      )

-- An `Input` with its label and its error.
pub record FieldView : Type 0 where
  pub id : Text
  pub label : Text
  pub auto_complete : Text
  pub placeholder : Text
  -- the attribute `type`
  pub type : Text
  pub aria_invalid : Bool
  pub message : Option Text

pub record FormView : Type 0 where
  pub alert : Option Text
  pub full_name : FieldView
  pub email : FieldView
  pub has_login_link : Bool
  pub password : FieldView
  pub strength : StrengthLevel
  pub confirm_password : FieldView
  pub terms_checked : Bool
  pub terms_message : Option Text
  pub submit_disabled : Bool
  pub submit_label : Text

pub data SignupView : Type 0 where
  signup_success : SignupView
  signup_form : FormView → SignupView

-- `FieldError` of next-frontend/components/auth/field-error.tsx, and `message && …`: an empty
-- message is not shown.
abbrev pub shown_text : Text → Option Text
shown_text [] = none
shown_text (c ∷ s) = some (c ∷ s)

abbrev pub shown : Option Issue → Option Text
shown none = none
shown (some issue) = shown_text issue.message

abbrev pub is_server_issue : Option Issue → Bool
is_server_issue none = false
is_server_issue (some issue) = issue.is_server

-- By the identifier, the label, the type, the attributes `autoComplete` and `placeholder` (none where
-- it is empty), and the entry of the field in `formState.errors`.
abbrev pub field_view : Text → Text → Text → Text → Text → Option Issue → FieldView
field_view id label type auto_complete placeholder issue = record {
  id = id;
  label = label;
  type = type;
  auto_complete = auto_complete;
  placeholder = placeholder;
  aria_invalid = is_some issue;
  message = shown issue;
}

abbrev pub password_type : Bool → Text
password_type shows = if shows then codes "text" else codes "password"

-- The fields of `SignupForm`.
abbrev pub form_view : SignupState → FormView
form_view st = record {
  alert = shown st.errors.root;
  full_name =
      field_view (codes "fullName") (codes "Full Name") (codes "text") (codes "name")
        (codes "Enter your full name") st.errors.full_name;
  email =
      field_view (codes "email") (codes "Email address") (codes "email") (codes "email")
        (codes "Enter your email") st.errors.email;
  has_login_link = is_some (shown st.errors.email) && is_server_issue st.errors.email;
  password =
      field_view (codes "password") (codes "Password") (password_type st.shows_password)
        (codes "new-password") (codes "Create password") st.errors.password;
  strength = get_strength_level st.values.password;
  confirm_password =
      field_view (codes "confirmPassword") (codes "Confirm Password")
        (password_type st.shows_confirm) (codes "new-password") (codes "Confirm your password")
        st.errors.confirm_password;
  terms_checked = st.values.terms;
  terms_message = shown st.errors.terms;
  submit_disabled = st.is_submitting;
  submit_label = if st.is_submitting then codes "Creating account…" else codes "Create account";
}

-- `SignupForm`
unfoldable pub render_signup : SignupState → SignupView
render_signup st = if st.created then signup_success else signup_form (form_view st)

-- ===== src/Tests/FormTests.antt =====
-- The forms of the frontend over the database with Ann.
use videum_video_platform.Common.{
  ◌≡◌, ◌≤◌, ◌↔◌, refl, Bool, true, false, Option, none, Text, codes, text_eq, char_count,
  has_variation_selector, length, arith,
}
use videum_video_platform.Http.Bodies.{Validator, is_valid_register}
use videum_video_platform.Http.Errors.{Message, one, ApiErrorEnvelope}
use videum_video_platform.Frontend.Bff.{Framework, ThrottlesWith429}
use videum_video_platform.Frontend.Session.{empty_session}
use videum_video_platform.Frontend.Strength.{test}
use videum_video_platform.Frontend.Signup.{SignupValues, SignupState, no_errors, signup_schema}
use videum_video_platform.Frontend.Signup.Schema.{accepted-is_valid_register_iff}
use videum_video_platform.Frontend.Signup.Outcome.{SignupEnds, submit_signup_cases}
use videum_video_platform.Frontend.Entry.{
  EntryState, no_entry_errors, forgot_password_success, render_forgot_password,
}
use videum_video_platform.Frontend.Entry.Outcome.{IsQuiet, asked, forgot_password_success_iff}
use videum_video_platform.Frontend.Entry.Login.{LoginEnds, submit_login_cases}
use videum_video_platform.Tests.AuthTests.{crypto, config, env_at, db, no_channel}

abbrev any_email : Text → Bool
any_email email = true

abbrev validator : Validator
validator = record { is_email = any_email; str_length = char_count }

abbrev server_error : ApiErrorEnvelope
server_error = record {
  status_code = 500;
  error = codes "Internal Server Error";
  message = one (codes "Internal server error");
}

abbrev lets_in : Framework
lets_in = record { uncaught = server_error; throttled = none }

lets_in-ThrottlesWith429 : ThrottlesWith429 lets_in
lets_in-ThrottlesWith429 reply over = cc

abbrev too_long : Message
too_long = one (codes "password must be shorter than or equal to 128 characters")

abbrev values : SignupValues
values = record {
  full_name = codes "Ann";
  email = codes "ann@x.org";
  password = codes "secret99";
  confirm_password = codes "secret99";
  terms = true;
}

abbrev filled_in : SignupState
filled_in = record {
  values = values;
  errors = no_errors;
  is_submitting = false;
  shows_password = false;
  shows_confirm = false;
  created = false;
}

accepted-is_valid_register_iff_example :
    (is_valid_register validator (codes "ann@x.org") (codes "secret99") ≡ true)
    ↔ (length (codes "secret99") ≤ 128)
unfolding signup_schema test text_eq has_variation_selector
accepted-is_valid_register_iff_example =
    accepted-is_valid_register_iff any_email validator values (λ s plain. refl) refl refl refl refl

-- Ann signs up again.
submit_signup_cases_example :
    SignupEnds crypto config no_channel validator any_email lets_in too_long
      (env_at 50 1)
      filled_in
      db
submit_signup_cases_example =
    submit_signup_cases crypto config no_channel validator any_email lets_in too_long (env_at 50 1)
      filled_in db refl (omega arith) (λ p. ground arith) lets_in-ThrottlesWith429
      (λ x p. ground arith)

abbrev entry : EntryState
entry = record {
  email = codes "eve@x.org";
  password = codes "guess";
  errors = no_entry_errors;
  is_submitting = false;
  done = false;
}

forgot_password_success_iff_example :
    (render_forgot_password
        (asked crypto config validator any_email lets_in too_long (env_at 50 1) entry db)
      ≡ forgot_password_success)
    ↔ ((◌≡◌ {A = Option ApiErrorEnvelope} none none)
        × (◌≡◌ {A = Bool} true true)
        × (◌≡◌ {A = Bool} true true)
        × IsQuiet (env_at 50 1) db (codes "eve@x.org"))
forgot_password_success_iff_example =
    forgot_password_success_iff crypto config validator any_email lets_in too_long (env_at 50 1)
      entry db refl (omega arith) lets_in-ThrottlesWith429

submit_login_cases_example :
    LoginEnds crypto config validator any_email lets_in too_long
      (env_at 50 1)
      entry
      db
      empty_session
submit_login_cases_example =
    submit_login_cases crypto config validator any_email lets_in too_long (env_at 50 1) entry db
      empty_session refl lets_in-ThrottlesWith429

-- ===== src/Frontend/Signup/Steps.antt =====
-- The steps of a submission of next-frontend/components/auth/signup-form.tsx, through the route
-- next-frontend/app/api/auth/signup/route.ts and the upstream, case by case.
use videum_video_platform.Common.{
  ℕ, ◌≤◌, ◌≡◌, ◌≢◌, subst, sym, refl, ◌⊎◌, inl, inr, ap, ◌∙◌, Bool, true, false, not, ◌&&◌, List,
  none, some, Text, codes, Result, ok, err, Exception, email_already_exists, internal, Action,
  is_some, leb, Bool-cases, arith, ◌==◌,
}
use videum_video_platform.Channels.Channel.{Channel}
use videum_video_platform.Users.{find_by_email}
use videum_video_platform.Users.Creation.{create_user_with_channel-ok, create_user_with_channel-err}
use videum_video_platform.Auth.Model.{AuthDb, AuthConfig, Crypto, Env}
use videum_video_platform.Auth.Accounts.{Registered, register}
use videum_video_platform.Http.Bodies.{Validator, is_valid_register}
use videum_video_platform.Http.Errors.{
  Message, ApiErrorEnvelope, filter_domain_exception, filter_validation_exception,
}
use videum_video_platform.Frontend.Forms.{flatten_message, map_signup_error_to_form}
use videum_video_platform.Frontend.Bff.{Framework, RouteReply, reply_to, validated, post_signup}
use videum_video_platform.Frontend.Signup.{
  SignupErrors, SignupState, signup_success, signup_form, signup_schema, has_errors, no_errors,
  shown, form_view, issue_if, is_server_issue, set_error, after_signup, submit_signup,
  render_signup,
}

-- The form is shown, without a link to the login.
abbrev pub ShowsForm : SignupState → Type 0
ShowsForm st =
    (render_signup st ≡ signup_form (form_view st)) × ((form_view st).has_login_link ≡ false)

-- So it is, with the text in its alert.
abbrev pub ShowsAlert : SignupState → Text → Type 0
ShowsAlert st text =
    ShowsForm st
    × ((form_view st).alert ≡ shown (some (record { is_server = true; message = text })))

-- The form is shown, with the text at the email and a link to the login.
abbrev pub ShowsLogin : SignupState → Text → Type 0
ShowsLogin st text =
    (render_signup st ≡ signup_form (form_view st))
    × ((form_view st).email.message ≡ some text)
    × ((form_view st).has_login_link ≡ true)

-- The form with the errors and no other change.
abbrev with_errors : SignupState → SignupErrors → SignupState
with_errors st errors = record st { errors = errors }

render-open :
    (st : SignupState) → st.created ≡ false → render_signup st ≡ signup_form (form_view st)
unfolding render_signup
render-open st open_form = rw open_form

and_false : (b : Bool) → (b && false) ≡ false
and_false true = refl
and_false false = refl

is_server_issue-issue_if :
    (failed : Bool) (message : Text) → is_server_issue (issue_if failed message none) ≡ false
is_server_issue-issue_if true message = refl
is_server_issue-issue_if false message = refl

-- A response that is not a success, with its envelope.
after_signup-failed :
    (status : ℕ) (envelope : ApiErrorEnvelope) (st : SignupState)
    → 400 ≤ status
    → after_signup (record { status = status; envelope = some envelope }) st
      ≡ with_errors st (set_error (map_signup_error_to_form envelope) st.errors)
unfolding after_signup
after_signup-failed status envelope st failed =
    let no : leb status 299 ≡ false = ground arith in rw no (ground arith)

set_error-alert :
    (envelope : ApiErrorEnvelope)
    → envelope.status_code ≢ 409
    → set_error (map_signup_error_to_form envelope) no_errors ≡ record no_errors {
      root = some (record { is_server = true; message = flatten_message envelope.message });
    }
unfolding map_signup_error_to_form
set_error-alert envelope other =
    let no : (envelope.status_code == 409) ≡ false = ground arith in rw no

-- `register` refuses a known email, succeeds, or fails with an error that is not of the domain.
module _ (k : Crypto) (cfg : AuthConfig) (create_channel : ℕ → Text → Action (List Channel) Channel)
    (e : Env) (email password : Text) (db : AuthDb) where
  pub register-made :
      (made : Result Channel × List Channel)
      → create_channel e.user_id email db.channels ≡ made
      → find_by_email email db ≡ none
      → ((x : Exception) → made.0 ≡ err x → x ≡ internal)
      → ((r : Registered) × ((register k cfg create_channel e email password db).0 ≡ ok r))
        ⊎ ((register k cfg create_channel e email password db).0 ≡ err internal)
  unfolding register
  register-made (err x, channels) made free only = inr (
      rw
        (
          free,
          create_user_with_channel-err create_channel e.user_id email
              (k.argon2_hash e.salt password) db channels x free made,
        )
        (ap err (only x refl)))
  register-made (ok channel, channels) made free only =
      let created =
        create_user_with_channel-ok create_channel e.user_id email (k.argon2_hash e.salt password)
          db channels channel free made in
      elim (Bool-cases e.mail_accepted) [
        | inl sent ↦ inl (record { id = e.user_id; email = email }, rw (free, created, sent))
        | inr unsent ↦ inr (rw (free, created, unsent))
      ]

  register-known :
      is_some (find_by_email email db) ≡ true
      → register k cfg create_channel e email password db ≡ (err email_already_exists, db)
  unfolding register
  register-known known = rw known

module _ (k : Crypto) (cfg : AuthConfig) (create_channel : ℕ → Text → Action (List Channel) Channel)
    (validator : Validator) (is_zod_email : Text → Bool) (framework : Framework) (message : Message)
    (e : Env) where
  -- The route's call of the upstream.
  abbrev pub post_register : Text → Text → AuthDb → RouteReply × AuthDb
  post_register email password db =
      let result =
        validated framework message (is_valid_register validator email password)
          (register k cfg create_channel e email password) db in
      (post_signup result.0, result.1)

  abbrev pub signed_up : SignupState → AuthDb → SignupState × AuthDb
  signed_up st db = submit_signup is_zod_email post_register st db

  module _ (st : SignupState) (db : AuthDb) where
    pub submit-rejected :
        has_errors (signup_schema is_zod_email st.values) ≡ true
        → signed_up st db ≡ (with_errors st (signup_schema is_zod_email st.values), db)
    unfolding submit_signup
    submit-rejected bad = rw bad

    submit-accepted :
        has_errors (signup_schema is_zod_email st.values) ≡ false
        → signed_up st db ≡ (
          after_signup
              (post_register st.values.email st.values.password db).0
              (with_errors st no_errors),
          (post_register st.values.email st.values.password db).1,
        )
    unfolding submit_signup
    submit-accepted good = rw good

    pub rejected-form :
        st.created ≡ false
        → has_errors (signup_schema is_zod_email st.values) ≡ true
        → ShowsForm (signed_up st db).0
    unfolding signup_schema
    rejected-form open_form bad =
        subst (λ r. ShowsForm r.0) (sym (submit-rejected bad))
          (
            render-open _ open_form,
            (let local =
                  is_server_issue-issue_if (not (is_zod_email st.values.email))
                    (codes "Invalid email address") in
                rw local (and_false _)),
          )

    submit-posted :
        (reply : RouteReply) (db' : AuthDb)
        → has_errors (signup_schema is_zod_email st.values) ≡ false
        → post_register st.values.email st.values.password db ≡ (reply, db')
        → signed_up st db ≡ (after_signup reply (with_errors st no_errors), db')
    submit-posted reply db' good posted =
        submit-accepted good ∙ ap (λ r. (after_signup r.0 (with_errors st no_errors), r.1)) posted

    -- The upstream's refusal in the alert.
    pub refused-alert :
        (envelope : ApiErrorEnvelope) (db' : AuthDb)
        → st.created ≡ false
        → 400 ≤ envelope.status_code
        → envelope.status_code ≢ 409
        → has_errors (signup_schema is_zod_email st.values) ≡ false
        → post_register st.values.email st.values.password db
          ≡ (record { status = envelope.status_code; envelope = some envelope }, db')
        → ShowsAlert (signed_up st db).0 (flatten_message envelope.message)
          × ((signed_up st db).1 ≡ db')
    refused-alert envelope db' open_form failed other good posted =
        let shows =
          submit-posted _ db' good posted
          ∙ ap (λ st'. (st', db'))
              (after_signup-failed envelope.status_code envelope (with_errors st no_errors) failed
                ∙ ap (with_errors st) (set_error-alert envelope other)) in
        subst (λ r. ShowsAlert r.0 (flatten_message envelope.message) × (r.1 ≡ db')) (sym shows)
          (((render-open _ open_form, refl), refl), refl)

    -- The throttler's answer is passed on.
    pub post_register-throttled :
        (reply : ApiErrorEnvelope)
        → framework.throttled ≡ some reply
        → post_register st.values.email st.values.password db
          ≡ (record { status = reply.status_code; envelope = some reply }, db)
    unfolding post_signup validated
    post_register-throttled reply throttled = rw throttled

    pub post_register-invalid :
        framework.throttled ≡ none
        → is_valid_register validator st.values.email st.values.password ≡ false
        → post_register st.values.email st.values.password db
          ≡ (record { status = 400; envelope = some (filter_validation_exception message) }, db)
    unfolding post_signup validated
    post_register-invalid free invalid = rw (free, invalid)

    post_register-ok :
        (r : Registered)
        → framework.throttled ≡ none
        → is_valid_register validator st.values.email st.values.password ≡ true
        → (register k cfg create_channel e st.values.email st.values.password db).0 ≡ ok r
        → post_register st.values.email st.values.password db ≡ (
          record { status = 201; envelope = none },
          (register k cfg create_channel e st.values.email st.values.password db).1,
        )
    unfolding post_signup validated
    post_register-ok r free valid done = rw (free, valid, done)

    post_register-err :
        (x : Exception)
        → framework.throttled ≡ none
        → is_valid_register validator st.values.email st.values.password ≡ true
        → (register k cfg create_channel e st.values.email st.values.password db).0 ≡ err x
        → let reply = reply_to framework.uncaught (filter_domain_exception x) in
          post_register st.values.email st.values.password db ≡ (
            record { status = reply.status_code; envelope = some reply },
            (register k cfg create_channel e st.values.email st.values.password db).1,
          )
    unfolding post_signup validated
    post_register-err x free valid failed = rw (free, valid, failed)

    pub post_register-internal :
        framework.throttled ≡ none
        → is_valid_register validator st.values.email st.values.password ≡ true
        → (register k cfg create_channel e st.values.email st.values.password db).0 ≡ err internal
        → post_register st.values.email st.values.password db ≡ (
          record { status = framework.uncaught.status_code; envelope = some framework.uncaught },
          (register k cfg create_channel e st.values.email st.values.password db).1,
        )
    unfolding filter_domain_exception
    post_register-internal free valid failed = post_register-err internal free valid failed

    pub created-success :
        (r : Registered)
        → framework.throttled ≡ none
        → has_errors (signup_schema is_zod_email st.values) ≡ false
        → is_valid_register validator st.values.email st.values.password ≡ true
        → (register k cfg create_channel e st.values.email st.values.password db).0 ≡ ok r
        → (render_signup (signed_up st db).0 ≡ signup_success)
          × ((signed_up st db).1
              ≡ (register k cfg create_channel e st.values.email st.values.password db).1)
    unfolding after_signup render_signup
    created-success r free good valid done =
        let shows = submit-posted _ _ good (post_register-ok r free valid done) in
        (ap (λ r. render_signup r.0) shows, ap (λ r. r.1) shows)

    pub known-login :
        framework.throttled ≡ none
        → st.created ≡ false
        → has_errors (signup_schema is_zod_email st.values) ≡ false
        → is_valid_register validator st.values.email st.values.password ≡ true
        → is_some (find_by_email st.values.email db) ≡ true
        → ShowsLogin (signed_up st db).0 (codes "Email is already registered")
          × ((signed_up st db).1 ≡ db)
    unfolding filter_domain_exception map_signup_error_to_form
    known-login free open_form good valid known =
        let refusal =
          register-known k cfg create_channel e st.values.email st.values.password db known in
        let posted = post_register-err email_already_exists free valid (ap (λ r. r.0) refusal) in
        let shows =
          submit-posted _ _ good posted
          ∙ ap
              (λ st'.
                (st', (register k cfg create_channel e st.values.email st.values.password db).1))
              (after_signup-failed 409 _ (with_errors st no_errors) (omega arith)) in
        (
          subst (λ r. ShowsLogin r.0 (codes "Email is already registered")) (sym shows)
              (render-open _ open_form, refl, refl),
          ap (λ r. r.1) shows ∙ ap (λ r. r.1) refusal,
        )

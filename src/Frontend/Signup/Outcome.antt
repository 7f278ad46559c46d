-- ===== src/Frontend/Signup/Outcome.antt =====
-- A submission of next-frontend/components/auth/signup-form.tsx, through the route and the upstream.
use videum_video_platform.Common.{
  ℕ, ◌≤◌, ◌≡◌, ◌≢◌, refl, ◌⊎◌, inl, inr, ap, Bool, true, false, not, List, none, some, Text, codes,
  ok, err, Exception, internal, Action, is_some, Bool-cases, Option-cases, arith,
}
use videum_video_platform.Channels.Channel.{Channel}
use videum_video_platform.Users.{find_by_email}
use videum_video_platform.Auth.Model.{AuthDb, AuthConfig, Crypto, Env}
use videum_video_platform.Auth.Accounts.{Registered, register}
use videum_video_platform.Http.Bodies.{Validator, is_valid_register}
use videum_video_platform.Http.Errors.{Message, ApiErrorEnvelope, filter_validation_exception}
use videum_video_platform.Frontend.Forms.{flatten_message}
use videum_video_platform.Frontend.Bff.{Framework, ThrottlesWith429}
use videum_video_platform.Frontend.Signup.{
  SignupState, signup_success, signup_schema, has_errors, render_signup,
}
use videum_video_platform.Frontend.Signup.Steps.{
  ShowsForm, ShowsAlert, ShowsLogin, signed_up, register-made, post_register-invalid,
  post_register-internal, rejected-form, submit-rejected, refused-alert, created-success,
  known-login, post_register-throttled,
}

module _ (k : Crypto) (cfg : AuthConfig) (create_channel : ℕ → Text → Action (List Channel) Channel)
    (validator : Validator) (is_zod_email : Text → Bool) (framework : Framework) (message : Message)
    (e : Env) (st : SignupState) (db : AuthDb) where
  -- The six ends of a submission, as `submit_signup_cases` says.
  abbrev pub SignupEnds : Type 0
  SignupEnds =
      let (st', db') =
        signed_up k cfg create_channel validator is_zod_email framework message e st db in
      let email = st.values.email in
      let password = st.values.password in
      let accepted = not (has_errors (signup_schema is_zod_email st.values)) in
      let valid = is_valid_register validator email password in
      let (result, registered_db) = register k cfg create_channel e email password db in
      ((accepted ≡ false) × ShowsForm st' × (db' ≡ db))
      ⊎ ((accepted ≡ true)
          × ((reply : ApiErrorEnvelope) × (framework.throttled ≡ some reply)
              × ShowsAlert st' (flatten_message reply.message))
          × (db' ≡ db))
      ⊎ ((accepted ≡ true)
          × (framework.throttled ≡ none)
          × (valid ≡ false)
          × ShowsAlert st' (flatten_message (filter_validation_exception message).message)
          × (db' ≡ db))
      ⊎ ((accepted ≡ true)
          × (framework.throttled ≡ none)
          × (valid ≡ true)
          × ((r : Registered) × (result ≡ ok r))
          × (render_signup st' ≡ signup_success)
          × (db' ≡ registered_db))
      ⊎ ((accepted ≡ true)
          × (framework.throttled ≡ none)
          × (valid ≡ true)
          × (is_some (find_by_email email db) ≡ true)
          × ShowsLogin st' (codes "Email is already registered")
          × (db' ≡ db))
      ⊎ ((accepted ≡ true)
          × (framework.throttled ≡ none)
          × (valid ≡ true)
          × (result ≡ err internal)
          × ShowsAlert st' (flatten_message framework.uncaught.message)
          × (db' ≡ registered_db))

  -- What a submission of the open form comes to. Values that the schema refuses are not sent. Those
  -- that are sent may be over the throttler's limit, and the alert says so. Of the others, the
  -- upstream's validation refuses some, and the alert says why. The
  -- others are registered and the success is shown, or the email is known, and the form says so
  -- with a link to the login, or the registration fails in another way, and the alert says so.
  -- Nothing is written where the values are refused, the throttler refuses or the email is known.
  -- Assumed is that `createChannel` throws no error of the domain, that the framework answers other
  -- errors with a status of at least 400 that is not 409, and that the throttler answers with 429.
  pub submit_signup_cases :
      st.created ≡ false
      → 400 ≤ framework.uncaught.status_code
      → framework.uncaught.status_code ≢ 409
      → ThrottlesWith429 framework
      → ((x : Exception)
          → (create_channel e.user_id st.values.email db.channels).0 ≡ err x
          → x ≡ internal)
      → SignupEnds
  unfolding filter_validation_exception
  submit_signup_cases open_form fails other limit only =
      elim (Bool-cases (has_errors (signup_schema is_zod_email st.values))) [
        | inl bad ↦ inl (
          ap not bad,
          rejected-form k cfg create_channel validator is_zod_email framework message e st db
              open_form bad,
          ap (λ r. r.1)
              (submit-rejected k cfg create_channel validator is_zod_email framework message e st db
                bad),
        )
        | inr good ↦ inr (elim (Option-cases framework.throttled) [
          | inr (reply, throttled) ↦
              let status = limit reply throttled in
              let (alert, kept) =
                refused-alert k cfg create_channel validator is_zod_email framework message e st db
                  reply db open_form (omega (arith, status)) (λ p. ground arith) good
                  (post_register-throttled k cfg create_channel validator is_zod_email framework
                    message e st db reply throttled) in
              inl (ap not good, (reply, throttled, alert), kept)
          | inl free ↦
              elim (Bool-cases (is_valid_register validator st.values.email st.values.password)) [
                | inr invalid ↦
                    let (alert, kept) =
                      refused-alert k cfg create_channel validator is_zod_email framework message e
                        st db (filter_validation_exception message) db open_form (omega arith)
                        (λ p. ground arith) good
                        (post_register-invalid k cfg create_channel validator is_zod_email framework
                          message e st db free invalid) in
                    inr (inl (ap not good, free, invalid, alert, kept))
                | inl valid ↦ inr (
                    inr (elim (Option-cases (find_by_email st.values.email db)) [
                      | inr (user, found) ↦
                          let known : is_some (find_by_email st.values.email db) ≡ true =
                            rw found in
                          let (login, kept) =
                            known-login k cfg create_channel validator is_zod_email framework
                              message e st db free open_form good valid known in
                          inr (inl (ap not good, free, valid, known, login, kept))
                      | inl unknown ↦
                          elim (register-made k cfg create_channel e st.values.email
                            st.values.password db _ refl unknown only) [
                              | inl (r, done) ↦
                                  let (success, written) =
                                    created-success k cfg create_channel validator is_zod_email
                                      framework message e st db r free good valid done in
                                  inl (ap not good, free, valid, (r, done), success, written)
                              | inr failed ↦
                                  let (alert, written) =
                                    refused-alert k cfg create_channel validator is_zod_email
                                      framework message e st db framework.uncaught _ open_form fails
                                      other good
                                      (post_register-internal k cfg create_channel validator
                                        is_zod_email framework message e st db free valid failed) in
                                  inr (inr (ap not good, free, valid, failed, alert, written))
                            ]
                    ]))
              ]
        ])
      ]

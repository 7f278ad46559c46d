-- ===== src/Frontend/Entry/Login.antt =====
-- A submission of next-frontend/components/auth/login-form.tsx, through the route
-- next-frontend/app/api/auth/login/route.ts and the upstream.
use videum_video_platform.Common.{
  ◌≡◌, refl, ◌⊎◌, inl, inr, ap, ◌∙◌, Bool, true, false, not, ◌&&◌, [], none, some, Text, codes, ok,
  err, Exception, email_not_confirmed, invalid_credentials, Bool-cases, Option-cases,
}
use videum_video_platform.Users.{find_by_email}
use videum_video_platform.Auth.Model.{User, AuthDb, AuthConfig, Crypto, Env, TokenPair}
use videum_video_platform.Auth.Sessions.{login}
use videum_video_platform.Auth.Sessions.Login.{MayLogIn, login_cases}
use videum_video_platform.Http.Bodies.{Validator, is_valid_login}
use videum_video_platform.Http.Errors.{
  Message, ApiErrorEnvelope, filter_domain_exception, filter_validation_exception,
}
use videum_video_platform.Frontend.Session.{SessionData, set_session}
use videum_video_platform.Frontend.Forms.{flatten_message, map_login_error_to_form}
use videum_video_platform.Frontend.Bff.{
  Framework, ThrottlesWith429, RouteReply, validated, route_login,
}
use videum_video_platform.Frontend.Signup.{shown_text}
use videum_video_platform.Frontend.Entry.{
  EntryState, no_entry_errors, has_entry_errors, login_schema, after_entry, submit_login,
  render_login,
}

module _ (k : Crypto) (cfg : AuthConfig) (validator : Validator) (is_zod_email : Text → Bool)
    (framework : Framework) (message : Message) (e : Env) where
  -- The route's call of the upstream, over the tables and the session of the browser.
  abbrev pub post_entry : Text → Text → AuthDb × SessionData → RouteReply × (AuthDb × SessionData)
  post_entry email password (db, session) =
      let result =
        validated framework message (is_valid_login validator email password)
          (login k cfg e email password) db in
      let routed = route_login result.0 email session in (routed.0, (result.1, routed.1))

  module _ (st : EntryState) (db : AuthDb) (session : SessionData) where
    abbrev pub entered : EntryState × (AuthDb × SessionData)
    entered = submit_login is_zod_email post_entry st (db, session)

    -- The form's values pass its schema and the upstream's validation.
    abbrev pub is_sendable : Bool
    is_sendable =
        not (has_entry_errors (login_schema is_zod_email st.email st.password))
        && is_valid_login validator st.email st.password

    submit_login-sent :
        (reply : RouteReply) (db' : AuthDb) (session' : SessionData)
        → has_entry_errors (login_schema is_zod_email st.email st.password) ≡ false
        → post_entry st.email st.password (db, session) ≡ (reply, (db', session'))
        → entered ≡ (
          after_entry map_login_error_to_form reply (record st { errors = no_entry_errors }),
          (db', session'),
        )
    unfolding submit_login
    submit_login-sent reply db' session' good posted =
        rw (entered, good)
          (ap
            (λ r. (
              after_entry map_login_error_to_form r.0 (record st { errors = no_entry_errors }),
              r.1,
            ))
            posted)

    -- What a login that fails in the upstream shows.
    submit_login-refused :
        (x : Exception) (envelope : ApiErrorEnvelope)
        → framework.throttled ≡ none
        → has_entry_errors (login_schema is_zod_email st.email st.password) ≡ false
        → is_valid_login validator st.email st.password ≡ true
        → login k cfg e st.email st.password db ≡ (err x, db)
        → filter_domain_exception x ≡ some envelope
        → entered ≡ (
          after_entry map_login_error_to_form
              (record { status = envelope.status_code; envelope = some envelope })
              (record st { errors = no_entry_errors }),
          (db, session),
        )
    unfolding validated route_login
    submit_login-refused x envelope free good valid failed caught =
        submit_login-sent (record { status = envelope.status_code; envelope = some envelope }) db
          session good (rw (free, valid, failed, caught))

    submit_login-ok :
        (pair : TokenPair)
        → framework.throttled ≡ none
        → has_entry_errors (login_schema is_zod_email st.email st.password) ≡ false
        → is_valid_login validator st.email st.password ≡ true
        → (login k cfg e st.email st.password db).0 ≡ ok pair
        → entered ≡ (
          record st { errors = no_entry_errors; done = true },
          (
            (login k cfg e st.email st.password db).1,
            set_session
                (some pair.access_token)
                (some pair.refresh_token)
                (some [])
                (some st.email)
                (some []),
          ),
        )
    unfolding validated route_login
    submit_login-ok pair free good valid done =
        submit_login-sent (record { status = 200; envelope = none }) _
          (set_session (some pair.access_token) (some pair.refresh_token) (some []) (some st.email)
            (some []))
          good (rw (free, valid, done))

    submit_login-rejected :
        has_entry_errors (login_schema is_zod_email st.email st.password) ≡ true
        → (entered.0.done ≡ st.done) × (entered.1 ≡ (db, session))
    unfolding submit_login
    submit_login-rejected bad = rw (entered, bad) (refl, refl)

    -- The throttler's answer is passed on.
    submit_login-throttled :
        (reply : ApiErrorEnvelope)
        → framework.throttled ≡ some reply
        → has_entry_errors (login_schema is_zod_email st.email st.password) ≡ false
        → entered ≡ (
          after_entry map_login_error_to_form
              (record { status = reply.status_code; envelope = some reply })
              (record st { errors = no_entry_errors }),
          (db, session),
        )
    unfolding validated route_login
    submit_login-throttled reply throttled good =
        submit_login-sent (record { status = reply.status_code; envelope = some reply }) db session
          good (rw throttled)

    submit_login-invalid :
        framework.throttled ≡ none
        → has_entry_errors (login_schema is_zod_email st.email st.password) ≡ false
        → is_valid_login validator st.email st.password ≡ false
        → entered ≡ (
          after_entry map_login_error_to_form
              (record { status = 400; envelope = some (filter_validation_exception message) })
              (record st { errors = no_entry_errors }),
          (db, session),
        )
    unfolding validated route_login
    submit_login-invalid free good invalid =
        submit_login-sent
          (record { status = 400; envelope = some (filter_validation_exception message) }) db
          session good (rw (free, invalid))

    submit_login-unsent :
        framework.throttled ≡ none
        → is_sendable ≡ false
        → st.done ≡ false
        → (entered.0.done ≡ false) × (entered.1 ≡ (db, session))
    submit_login-unsent free unsendable fresh =
        elim (Bool-cases (has_entry_errors (login_schema is_zod_email st.email st.password))) [
          | inl bad ↦ let (kept, same) = submit_login-rejected bad in (kept ∙ fresh, same)
          | inr good ↦
              let invalid : is_valid_login validator st.email st.password ≡ false =
                rw good at unsendable in
              let shows = submit_login-invalid free good invalid in
              (ap (λ r. r.0.done) shows ∙ fresh, ap (λ r. r.1) shows)
        ]

    sendable-parts :
        is_sendable ≡ true
        → (has_entry_errors (login_schema is_zod_email st.email st.password) ≡ false)
          × (is_valid_login validator st.email st.password ≡ true)
    sendable-parts sendable =
        elim (Bool-cases (has_entry_errors (login_schema is_zod_email st.email st.password))) [
          | inl bad ↦ absurd (let no : false ≡ true = rw bad at sendable in cc)
          | inr good ↦ (good, rw good at sendable)
        ]

    after_entry-throttled :
        (reply : ApiErrorEnvelope)
        → reply.status_code ≡ 429
        → let after =
            after_entry map_login_error_to_form
              (record { status = reply.status_code; envelope = some reply })
              (record st { errors = no_entry_errors }) in
          ((render_login after).alert ≡ shown_text (flatten_message reply.message))
          × (after.done ≡ st.done)
    unfolding map_login_error_to_form render_login
    after_entry-throttled reply status = rw status (refl, refl)

    -- The six ends of a submission, as `submit_login_cases` says.
    abbrev pub LoginEnds : Type 0
    LoginEnds =
        ((has_entry_errors (login_schema is_zod_email st.email st.password) ≡ true)
          × (entered.0.done ≡ false)
          × (entered.1 ≡ (db, session)))
        ⊎ ((has_entry_errors (login_schema is_zod_email st.email st.password) ≡ false)
            × ((reply : ApiErrorEnvelope) × (framework.throttled ≡ some reply)
                × ((render_login entered.0).alert ≡ shown_text (flatten_message reply.message)))
            × (entered.0.done ≡ st.done)
            × (entered.1 ≡ (db, session)))
        ⊎ ((framework.throttled ≡ none)
            × (is_sendable ≡ false)
            × (entered.0.done ≡ false)
            × (entered.1 ≡ (db, session)))
        ⊎ ((framework.throttled ≡ none)
            × (is_sendable ≡ true)
            × ((user : User) × (pair : TokenPair) × MayLogIn k db st.email st.password user
                × ((login k cfg e st.email st.password db).0 ≡ ok pair)
                × (entered.0.done ≡ true)
                × (entered.1 ≡ (
                  (login k cfg e st.email st.password db).1,
                  set_session (some pair.access_token) (some pair.refresh_token) (some [])
                      (some st.email) (some []),
                ))))
        ⊎ ((framework.throttled ≡ none)
            × (is_sendable ≡ true)
            × ((user : User) × (find_by_email st.email db ≡ some user)
                × (k.argon2_verify user.password st.password ≡ true)
                × (user.is_confirmed ≡ false))
            × ((render_login entered.0).resend_alert
                ≡ some (codes "Email address has not been confirmed"))
            × (entered.1 ≡ (db, session)))
        ⊎ ((framework.throttled ≡ none)
            × (is_sendable ≡ true)
            × ((user : User)
                → find_by_email st.email db ≡ some user
                → k.argon2_verify user.password st.password ≡ false)
            × ((render_login entered.0).alert ≡ some (codes "Invalid email or password"))
            × (entered.1 ≡ (db, session)))

    -- A submission of the login form, through the route and the upstream, comes to one of six ends.
    -- Values that the schema refuses, or that are sent and refused by the upstream's validation,
    -- change neither the tables nor the session. Nor does a submission over the throttler's limit,
    -- and the alert says so. Of the others, a user who may log in gets a session with the new tokens. One whose email is not
    -- confirmed is shown the alert that offers to send the confirmation again, and whoever has an
    -- unknown email or a wrong password the alert that says so; the tables and the session stay.
    -- The throttler is taken to answer with 429.
    pub submit_login_cases : st.done ≡ false → ThrottlesWith429 framework → LoginEnds
    unfolding filter_domain_exception map_login_error_to_form render_login
    submit_login_cases fresh limit =
        elim (Bool-cases (has_entry_errors (login_schema is_zod_email st.email st.password))) [
          | inl bad ↦ let (kept, same) = submit_login-rejected bad in inl (bad, kept ∙ fresh, same)
          | inr fine ↦ inr (elim (Option-cases framework.throttled) [
            | inr (reply, throttled) ↦
                let shows = submit_login-throttled reply throttled fine in
                let shown = after_entry-throttled reply (limit reply throttled) in
                inl (
                  fine,
                  (reply, throttled, ap (λ r. (render_login r.0).alert) shows ∙ shown.0),
                  ap (λ r. r.0.done) shows ∙ shown.1,
                  ap (λ r. r.1) shows,
                )
            | inl free ↦ inr (elim (Bool-cases is_sendable) [
              | inr unsendable ↦
                  let (open_form, same) = submit_login-unsent free unsendable fresh in
                  inl (free, unsendable, open_form, same)
              | inl sendable ↦
                  let (good, valid) = sendable-parts sendable in
                  inr (elim (login_cases k cfg e db st.email st.password) [
                    | inl (user, may, (pair, done)) ↦
                        let shows = submit_login-ok pair free good valid done in
                        inl (
                          free,
                          sendable,
                          (user, pair, may, done, ap (λ r. r.0.done) shows, ap (λ r. r.1) shows),
                        )
                    | inr (inl (failed, unconfirmed)) ↦
                        let shows =
                          submit_login-refused email_not_confirmed _ free good valid failed refl in
                        inr (
                          inl (
                            free,
                            sendable,
                            unconfirmed,
                            ap (λ r. (render_login r.0).resend_alert) shows,
                            ap (λ r. r.1) shows,
                          ))
                    | inr (inr (failed, wrong)) ↦
                        let shows =
                          submit_login-refused invalid_credentials _ free good valid failed refl in
                        inr (
                          inr (
                            free,
                            sendable,
                            wrong,
                            ap (λ r. (render_login r.0).alert) shows,
                            ap (λ r. r.1) shows,
                          ))
                  ])
            ])
          ])
        ]

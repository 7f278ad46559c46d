-- ===== src/Frontend/Entry/Outcome.antt =====
-- A submission of next-frontend/components/auth/forgot-password-form.tsx, through the route
-- next-frontend/app/api/auth/forgot-password/route.ts and the upstream.
use videum_video_platform.Common.{
  ℕ, ◌≤◌, ◌≡◌, ◌≢◌, ◌↔◌, ◌⊎◌, inl, inr, ap, ◌∙◌, Bool, true, false, none, some, Text, ok, err,
  internal, leb, Bool-cases, Option-cases, arith,
}
use videum_video_platform.Channels.Channel.{Channel}
use videum_video_platform.Users.{find_by_email_with_channel}
use videum_video_platform.Auth.Model.{User, AuthDb, AuthConfig, Crypto, Env}
use videum_video_platform.Auth.Accounts.{forgot_password}
use videum_video_platform.Http.Bodies.{Validator, is_valid_forgot_password}
use videum_video_platform.Http.Errors.{
  Message, ApiErrorEnvelope, filter_domain_exception, filter_validation_exception,
}
use videum_video_platform.Frontend.Forms.{map_forgot_password_error_to_form}
use videum_video_platform.Frontend.Bff.{
  Framework, ThrottlesWith429, RouteReply, validated, post_forgot_password,
}
use videum_video_platform.Frontend.Entry.{
  EntryState, no_entry_errors, forgot_password_schema, after_entry, submit_forgot_password,
  forgot_password_success, render_forgot_password,
}

-- The email is unknown, or its user has a channel and the mailer takes the mail.
abbrev pub IsQuiet : Env → AuthDb → Text → Type 0
IsQuiet e db email =
    (find_by_email_with_channel email db ≡ none)
    ⊎ ((user : User) × (c : Channel) × (find_by_email_with_channel email db ≡ some (user, some c))
        × (e.mail_accepted ≡ true))

module _ (k : Crypto) (cfg : AuthConfig) (e : Env) (email : Text) (db : AuthDb) where
  forgot_password-quiet : IsQuiet e db email → (forgot_password k cfg e email db).0 ≡ ok tt
  unfolding forgot_password
  forgot_password-quiet (inl unknown) = rw unknown
  forgot_password-quiet (inr (user, c, known, sent)) = rw (known, sent)

  forgot_password-cases : IsQuiet e db email ⊎ ((forgot_password k cfg e email db).0 ≡ err internal)
  unfolding forgot_password
  forgot_password-cases = elim (Option-cases (find_by_email_with_channel email db)) [
    | inl unknown ↦ inl (inl unknown)
    | inr ((user, channel), known) ↦ elim (Option-cases channel) [
      | inl no_channel ↦ inr (rw (known, no_channel))
      | inr (c, has_channel) ↦ elim (Bool-cases e.mail_accepted) [
        | inl sent ↦ inl (inr (user, c, known ∙ rw has_channel, sent))
        | inr unsent ↦ inr (rw (known, has_channel, unsent))
      ]
    ]
  ]

module _ (k : Crypto) (cfg : AuthConfig) (validator : Validator) (is_zod_email : Text → Bool)
    (framework : Framework) (message : Message) (e : Env) where
  -- The route's call of the upstream.
  abbrev pub post_forgot : Text → AuthDb → RouteReply × AuthDb
  post_forgot email db =
      let result =
        validated framework message (is_valid_forgot_password validator email)
          (forgot_password k cfg e email) db in
      (post_forgot_password result.0, result.1)

  module _ (st : EntryState) (db : AuthDb) where
    abbrev pub asked : EntryState
    asked = (submit_forgot_password is_zod_email post_forgot st db).0

    submit-unsent : is_zod_email st.email ≡ false → asked.done ≡ st.done
    unfolding submit_forgot_password forgot_password_schema
    submit-unsent bad = rw (asked, bad)

    submit-sent :
        (reply : RouteReply)
        → is_zod_email st.email ≡ true
        → (post_forgot st.email db).0 ≡ reply
        → asked
          ≡ after_entry map_forgot_password_error_to_form reply
              (record st { errors = no_entry_errors })
    unfolding submit_forgot_password forgot_password_schema
    submit-sent reply good posted =
        rw (asked, good)
          (ap
            (λ r.
              after_entry map_forgot_password_error_to_form r
                (record st { errors = no_entry_errors }))
            posted)

    after_entry-failed :
        (status : ℕ) (envelope : ApiErrorEnvelope)
        → 400 ≤ status
        → (after_entry map_forgot_password_error_to_form
            (record { status = status; envelope = some envelope })
            (record st { errors = no_entry_errors })).done
          ≡ st.done
    after_entry-failed status envelope failed =
        let no : leb status 299 ≡ false = ground arith in rw no (ground arith)

    -- The throttler's answer is passed on.
    post_forgot-throttled :
        (reply : ApiErrorEnvelope)
        → framework.throttled ≡ some reply
        → (post_forgot st.email db).0 ≡ record { status = reply.status_code; envelope = some reply }
    unfolding post_forgot_password validated
    post_forgot-throttled reply throttled = rw throttled

    post_forgot-invalid :
        framework.throttled ≡ none
        → validator.is_email st.email ≡ false
        → (post_forgot st.email db).0
          ≡ record { status = 400; envelope = some (filter_validation_exception message) }
    unfolding post_forgot_password validated is_valid_forgot_password
    post_forgot-invalid free invalid = rw (free, invalid)

    post_forgot-ok :
        framework.throttled ≡ none
        → validator.is_email st.email ≡ true
        → (forgot_password k cfg e st.email db).0 ≡ ok tt
        → (post_forgot st.email db).0 ≡ record { status = 204; envelope = none }
    unfolding post_forgot_password validated is_valid_forgot_password
    post_forgot-ok free valid done = rw (free, valid, done)

    post_forgot-internal :
        framework.throttled ≡ none
        → validator.is_email st.email ≡ true
        → (forgot_password k cfg e st.email db).0 ≡ err internal
        → (post_forgot st.email db).0
          ≡ record { status = framework.uncaught.status_code; envelope = some framework.uncaught }
    unfolding post_forgot_password validated is_valid_forgot_password filter_domain_exception
    post_forgot-internal free valid failed = rw (free, valid, failed)

    asked-failed :
        (status : ℕ) (envelope : ApiErrorEnvelope)
        → st.done ≡ false
        → is_zod_email st.email ≡ true
        → 400 ≤ status
        → (post_forgot st.email db).0 ≡ record { status = status; envelope = some envelope }
        → asked.done ≡ false
    asked-failed status envelope fresh good failed posted =
        ap (λ x. x.done) (submit-sent _ good posted)
        ∙ after_entry-failed status envelope failed
        ∙ fresh

    asked-cases :
        st.done ≡ false
        → 400 ≤ framework.uncaught.status_code
        → ThrottlesWith429 framework
        → ((framework.throttled ≡ none)
            × (is_zod_email st.email ≡ true)
            × (validator.is_email st.email ≡ true)
            × IsQuiet e db st.email)
          ⊎ (asked.done ≡ false)
    unfolding filter_validation_exception
    asked-cases fresh fails limit = elim (Bool-cases (is_zod_email st.email)) [
      | inr bad ↦ inr (submit-unsent bad ∙ fresh)
      | inl good ↦ elim (Option-cases framework.throttled) [
        | inr (reply, throttled) ↦
            let status = limit reply throttled in
            inr (
              asked-failed reply.status_code reply fresh good (omega (arith, status))
                (post_forgot-throttled reply throttled))
        | inl free ↦ elim (Bool-cases (validator.is_email st.email)) [
          | inr invalid ↦
              inr (asked-failed 400 _ fresh good (omega arith) (post_forgot-invalid free invalid))
          | inl valid ↦ elim (forgot_password-cases k cfg e st.email db) [
            | inl quiet ↦ inl (free, good, valid, quiet)
            | inr failed ↦ inr (
                asked-failed framework.uncaught.status_code _ fresh good fails
                  (post_forgot-internal free valid failed))
          ]
        ]
      ]
    ]

    success-of_done : asked.done ≡ true → render_forgot_password asked ≡ forgot_password_success
    unfolding render_forgot_password
    success-of_done sent = rw sent

    not_success : asked.done ≡ false → render_forgot_password asked ≢ forgot_password_success
    unfolding render_forgot_password
    not_success unsent = rw unsent (λ p. cc)

    -- The form for a forgotten password tells that it has sent a mail exactly if the throttler lets it
    -- in, its email is accepted by the schema and by the upstream's validation, and either no user
    -- has it, or the user has a channel and the mailer takes the mail. So a stranger who asks for a known and for
    -- an unknown email sees the same, unless the mail of the known one fails. The framework is
    -- assumed to answer errors that no filter catches with a status of at least 400, the throttler
    -- to answer with 429, and the form not to show the success already.
    pub forgot_password_success_iff :
        st.done ≡ false
        → 400 ≤ framework.uncaught.status_code
        → ThrottlesWith429 framework
        → (render_forgot_password asked ≡ forgot_password_success) ↔ (
            (framework.throttled ≡ none)
            × (is_zod_email st.email ≡ true)
            × (validator.is_email st.email ≡ true)
            × IsQuiet e db st.email)
    forgot_password_success_iff fresh fails limit = (
      λ success. elim (asked-cases fresh fails limit) [
        | inl all ↦ all
        | inr unsent ↦ absurd (not_success unsent success)
      ],
      λ (free, good, valid, quiet). success-of_done (
          ap (λ x. x.done)
            (submit-sent _ good
              (post_forgot-ok free valid (forgot_password-quiet k cfg e st.email db quiet)))),
    )

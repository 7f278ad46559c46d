-- ===== src/Http/Conformance.antt =====
-- Every status that the controllers' routes answer with is documented by their `@ApiResponse`s
-- (nestjs-project/src/auth/auth.controller.ts, nestjs-project/src/videos/videos.controller.ts).
use videum_video_platform.Common.{
  ℕ, ◌≡◌, refl, ap, Bool, true, false, List, Option, none, some, Text, Result, ok, err, Exception,
  internal, Action, Option-cases, inl, inr, ◌⊎◌, arith, if◌then◌else◌,
}
use videum_video_platform.Channels.Channel.{Channel}
use videum_video_platform.Storage.{S3, CompletedPart, initiate_multipart_upload, head_object}
use videum_video_platform.Users.{find_by_email, find_by_email_with_channel}
use videum_video_platform.Users.Creation.{create_user_with_channel-ok, create_user_with_channel-err}
use videum_video_platform.Auth.Model.{AuthDb, AuthConfig, Crypto, Env}
use videum_video_platform.Auth.Sessions.{login, refresh, logout}
use videum_video_platform.Auth.Accounts.{
  register, confirm, resend_confirmation, forgot_password, reset_password,
}
use videum_video_platform.Videos.Model.{VideoDb}
use videum_video_platform.Videos.Service.{
  CreateVideoDto, Draw, create_draft, complete_upload, find_visible_video, get_for_playback,
  get_download_url,
}
use videum_video_platform.Http.Guard.{JwtPayload, Activation, activated, unauthorized, can_activate}
use videum_video_platform.Http.Errors.{
  Message, ApiErrorEnvelope, filter_domain_exception, filter_validation_exception,
}
use videum_video_platform.Http.Handlers.{
  ApiRequest, register_request, login_request, reset_password_request, confirm_email_request,
  resend_confirmation_request, refresh_request, forgot_password_request, logout_request, me_request,
  create_request, complete_request, get_for_playback_request, download_request, route_of, Services,
  outcome, with_user, sub_of, handle, serve,
}
use videum_video_platform.Http.Routes.{
  Route, register_route, confirm_email_route, resend_confirmation_route, login_route, refresh_route,
  forgot_password_route, reset_password_route, logout_route, me_route, create_route, complete_route,
  get_for_playback_route, download_route, documented, member, of_result, respond, after_guard,
  status_of, success_status, has_body, is_public, is_optional_auth,
}

-- The route documents the error's status; an internal error is the framework's to answer.
abbrev pub documents_reply : Route → Option ApiErrorEnvelope → Bool
documents_reply route none = true
documents_reply route (some reply) = member reply.status_code (documented route)

abbrev pub documents : Route → Exception → Bool
documents route e = documents_reply route (filter_domain_exception e)

-- A result whose error, if it is one, the route documents.
abbrev pub IsDocumented : {A : Type 0} → Route → Result A → Type 0
IsDocumented route (ok a) = Unit
IsDocumented route (err e) = documents route e ≡ true

module _ (k : Crypto) (cfg : AuthConfig) (e : Env) (db : AuthDb) where
  login-IsDocumented :
      (email password : Text) → IsDocumented login_route (login k cfg e email password db).0
  unfolding login filter_domain_exception
  login-IsDocumented email password = ground arith

  confirm-IsDocumented :
      (token : Text) → IsDocumented confirm_email_route (confirm k cfg e token db).0
  unfolding confirm filter_domain_exception
  confirm-IsDocumented token = ground arith

  refresh-IsDocumented : (raw : Text) → IsDocumented refresh_route (refresh k cfg e raw db).0
  unfolding refresh filter_domain_exception
  refresh-IsDocumented raw = ground arith

  resend_confirmation-IsDocumented :
      (email : Text)
      → IsDocumented resend_confirmation_route (resend_confirmation k cfg e email db).0
  unfolding resend_confirmation find_by_email_with_channel filter_domain_exception
  resend_confirmation-IsDocumented email = ground arith

  forgot_password-IsDocumented :
      (email : Text) → IsDocumented forgot_password_route (forgot_password k cfg e email db).0
  unfolding forgot_password find_by_email_with_channel filter_domain_exception
  forgot_password-IsDocumented email = ground arith

  reset_password-IsDocumented :
      (token new_password : Text)
      → IsDocumented reset_password_route (reset_password k cfg e token new_password db).0
  unfolding reset_password filter_domain_exception
  reset_password-IsDocumented token new_password = ground arith

module _ (k : Crypto) (cfg : AuthConfig)
    (create_channel : ℕ → Text → Action (List Channel) Channel) where
  register-IsDocumented :
      (e : Env) (email password : Text) (db : AuthDb)
      → ((channels : List Channel) (x : Exception)
          → (create_channel e.user_id email channels).0 ≡ err x
          → x ≡ internal)
      → IsDocumented register_route (register k cfg create_channel e email password db).0
  unfolding register filter_domain_exception
  register-IsDocumented e email password db only_internal =
      elim (Option-cases (find_by_email email db)) [
        | inr (user, taken) ↦ rw taken refl
        | inl free ↦ go (create_channel e.user_id email db.channels) refl free
      ]
    where
      go :
          (made : Result Channel × List Channel)
          → create_channel e.user_id email db.channels ≡ made
          → find_by_email email db ≡ none
          → IsDocumented register_route (register k cfg create_channel e email password db).0
      go (err x, channels) made free =
          let plain : x ≡ internal = only_internal db.channels x (ap (λ t. t.0) made) in
          rw
            (
              free,
              create_user_with_channel-err create_channel e.user_id email
                  (k.argon2_hash e.salt password) db channels x free made,
              plain,
            )
            refl
      go (ok channel, channels) made free =
          rw
            (
              free,
              create_user_with_channel-ok create_channel e.user_id email
                  (k.argon2_hash e.salt password) db channels channel free made,
            )
            (ground arith)

module _ (s3 : S3) (db : VideoDb) where
  create_draft-IsDocumented :
      (part_size : ℕ) (d : Draw) (owner_id : ℕ) (dto : CreateVideoDto)
      → IsDocumented create_route (create_draft s3 part_size d owner_id dto db).0
  unfolding create_draft filter_domain_exception initiate_multipart_upload
  create_draft-IsDocumented part_size d owner_id dto = ground arith

  complete_upload-IsDocumented :
      (queue_accepts : Bool) (owner_id : ℕ) (public_id : Text) (parts : List CompletedPart)
      → IsDocumented complete_route (complete_upload s3 queue_accepts owner_id public_id parts db).0
  unfolding complete_upload filter_domain_exception head_object
  complete_upload-IsDocumented queue_accepts owner_id public_id parts = ground arith

  get_for_playback-IsDocumented :
      (public_id : Text) (requester_id : Option ℕ)
      → IsDocumented get_for_playback_route (get_for_playback s3 public_id requester_id db).0
  unfolding get_for_playback find_visible_video filter_domain_exception
  get_for_playback-IsDocumented public_id requester_id = ground arith

  get_download_url-IsDocumented :
      (public_id : Text) (requester_id : Option ℕ)
      → IsDocumented download_route (get_download_url s3 public_id requester_id db).0
  unfolding get_download_url find_visible_video filter_domain_exception
  get_download_url-IsDocumented public_id requester_id = ground arith

success_status-documented :
    (route : Route) → member (success_status route) (documented route) ≡ true
success_status-documented register_route = refl
success_status-documented _ = refl

has_body-documented : (route : Route) → has_body route ≡ true → member 400 (documented route) ≡ true
has_body-documented logout_route h = cc
has_body-documented me_route h = cc
has_body-documented get_for_playback_route h = cc
has_body-documented download_route h = cc
has_body-documented _ h = refl

guarded-documented :
    (route : Route)
    → is_public route ≡ false
    → is_optional_auth route ≡ false
    → member 401 (documented route) ≡ true
guarded-documented register_route h o = cc
guarded-documented confirm_email_route h o = cc
guarded-documented resend_confirmation_route h o = cc
guarded-documented login_route h o = cc
guarded-documented refresh_route h o = cc
guarded-documented forgot_password_route h o = cc
guarded-documented reset_password_route h o = cc
guarded-documented get_for_playback_route h o = cc
guarded-documented download_route h o = cc
guarded-documented _ h o = refl

can_activate-unauthorized :
    (verify : Text → Option JwtPayload) (public optional : Bool) (authorization : Option Text)
    → can_activate verify public optional authorization ≡ unauthorized
    → (public ≡ false) × (optional ≡ false)
unfolding can_activate
can_activate-unauthorized verify public optional none e = (ground arith, ground arith)
can_activate-unauthorized verify public optional (some header) e = (ground arith, ground arith)

of_result-documented :
    {A : Type 0} (route : Route) (r : Result A) (status : ℕ)
    → IsDocumented route r
    → status_of (of_result route r) ≡ some status
    → member status (documented route) ≡ true
of_result-documented route (ok a) status h answered =
    let same : success_status route ≡ status = ground arith in
    rw⁻¹ same (success_status-documented route)
of_result-documented route (err e) status h answered =
    elim (Option-cases (filter_domain_exception e)) [
      | inl uncaught ↦ absurd (ground arith)
      | inr (reply, caught) ↦
          let same : reply.status_code ≡ status = ground arith in rw⁻¹ same (rw caught at h)
    ]

IsDocumented-outcome :
    {A : Type 0} (route : Route) (r : Result A)
    → IsDocumented route r
    → IsDocumented route (outcome r)
IsDocumented-outcome route (ok a) h = tt
IsDocumented-outcome route (err x) h = h

IsDocumented-with_user :
    (route : Route) (f : ℕ → Result (Unit {0})) (user : Option JwtPayload)
    → ((id : ℕ) → IsDocumented route (f id))
    → IsDocumented route (with_user f user)
unfolding filter_domain_exception
IsDocumented-with_user route f none h = refl
IsDocumented-with_user route f (some user) h = h user.sub

-- `createChannel` throws no error of the domain.
abbrev pub ThrowsInternal : Services → Type 0
ThrowsInternal s =
    (email : Text) (channels : List Channel) (x : Exception)
    → (s.create_channel s.e.user_id email channels).0 ≡ err x
    → x ≡ internal

handle-IsDocumented :
    (s : Services)
    → ThrowsInternal s
    → (request : ApiRequest) (user : Option JwtPayload)
    → IsDocumented (route_of request) (handle s request user)
unfolding handle logout
handle-IsDocumented s only (register_request email password) user =
    IsDocumented-outcome register_route _
      (register-IsDocumented s.k s.cfg s.create_channel s.e email password s.db (only email))
handle-IsDocumented s only (login_request email password) user =
    IsDocumented-outcome login_route _ (login-IsDocumented s.k s.cfg s.e s.db email password)
handle-IsDocumented s only (reset_password_request token new_password) user =
    IsDocumented-outcome reset_password_route _
      (reset_password-IsDocumented s.k s.cfg s.e s.db token new_password)
handle-IsDocumented s only (confirm_email_request token) user =
    IsDocumented-outcome confirm_email_route _ (confirm-IsDocumented s.k s.cfg s.e s.db token)
handle-IsDocumented s only (resend_confirmation_request email) user =
    IsDocumented-outcome resend_confirmation_route _
      (resend_confirmation-IsDocumented s.k s.cfg s.e s.db email)
handle-IsDocumented s only (refresh_request refresh_token) user =
    IsDocumented-outcome refresh_route _ (refresh-IsDocumented s.k s.cfg s.e s.db refresh_token)
handle-IsDocumented s only (forgot_password_request email) user =
    IsDocumented-outcome forgot_password_route _
      (forgot_password-IsDocumented s.k s.cfg s.e s.db email)
handle-IsDocumented s only logout_request user =
    IsDocumented-with_user logout_route _ user (λ id. tt)
handle-IsDocumented s only me_request user = tt
handle-IsDocumented s only (create_request dto) user =
    IsDocumented-with_user create_route _ user (λ id.
      IsDocumented-outcome create_route _
        (create_draft-IsDocumented s.s3 s.videos s.part_size s.d id dto))
handle-IsDocumented s only (complete_request public_id parts) user =
    IsDocumented-with_user complete_route _ user (λ id.
      IsDocumented-outcome complete_route _
        (complete_upload-IsDocumented s.s3 s.videos s.queue_accepts id public_id parts))
handle-IsDocumented s only (get_for_playback_request public_id) user =
    IsDocumented-outcome get_for_playback_route _
      (get_for_playback-IsDocumented s.s3 s.videos public_id (sub_of user))
handle-IsDocumented s only (download_request public_id) user =
    IsDocumented-outcome download_route _
      (get_download_url-IsDocumented s.s3 s.videos public_id (sub_of user))

too_many_requests-undocumented : (route : Route) → member 429 (documented route) ≡ false
too_many_requests-undocumented register_route = refl
too_many_requests-undocumented _ = refl

after_guard-documented :
    {A : Type 0} (throttled : Bool) (route : Route) (message : Option Message)
    (handler : Option JwtPayload → Result A) (entry : Activation) (status : ℕ)
    → (entry ≡ unauthorized → member 401 (documented route) ≡ true)
    → (message ≡ none) ⊎ (has_body route ≡ true)
    → ((user : Option JwtPayload) → IsDocumented route (handler user))
    → status_of (after_guard throttled route message handler entry) ≡ some status
    → (member status (documented route) ≡ true) ⊎ ((throttled ≡ true) × (status ≡ 429))
unfolding filter_validation_exception
after_guard-documented t route message handler unauthorized status closed bodied fine answered =
    let same : 401 ≡ status = ground arith in inl (rw⁻¹ same (closed refl))
after_guard-documented true route message handler (activated user) status closed bodied fine
      answered =
    inr (refl, ground arith)
after_guard-documented false route none handler (activated user) status closed bodied fine
      answered =
    inl (of_result-documented route (handler user) status (fine user) answered)
after_guard-documented false route (some message) handler (activated user) status closed
      (inl no_message) fine answered =
    cc
after_guard-documented false route (some message) handler (activated user) status closed (inr body)
      fine answered =
    let same : 400 ≡ status = ground arith in inl (rw⁻¹ same (has_body-documented route body))

-- Every status that a request is answered with, be it by the guards, the validation, the method of its
-- controller with the services behind it, or the filters, is documented for its route, but for the
-- 429 of the throttler, which no route documents. Responses that are left to the framework, those to
-- errors that no filter catches, have no status here. `createChannel` is taken to throw no error of
-- the domain.
pub serve-documented :
    (s : Services) (verify : Text → Option JwtPayload) (throttled : Bool)
    (authorization : Option Text) (invalid : Option Message) (request : ApiRequest) (status : ℕ)
    → ThrowsInternal s
    → status_of (serve s verify throttled authorization invalid request) ≡ some status
    → ((member status (documented (route_of request)) ≡ true)
        ⊎ ((throttled ≡ true) × (status ≡ 429)))
      × (member 429 (documented (route_of request)) ≡ false)
unfolding serve respond
serve-documented s verify throttled authorization invalid request status only answered =
    let route = route_of request in
    (
      after_guard-documented throttled route (if has_body route then invalid else none)
          (handle s request)
          (can_activate verify (is_public route) (is_optional_auth route) authorization) status
          (λ e.
            (let (closed, strict) =
                can_activate-unauthorized verify (is_public route) (is_optional_auth route)
                  authorization e in
              guarded-documented route closed strict))
          (validated_only (has_body route) invalid) (handle-IsDocumented s only request) answered,
      too_many_requests-undocumented route,
    )
  where
    validated_only :
        (body : Bool) (message : Option Message)
        → ((if body then message else none) ≡ none) ⊎ (body ≡ true)
    validated_only true message = inr refl
    validated_only false message = inl refl

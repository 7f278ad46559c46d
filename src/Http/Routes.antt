-- ===== src/Http/Routes.antt =====
-- The routes of nestjs-project/src/auth/auth.controller.ts and
-- nestjs-project/src/videos/videos.controller.ts, with the decorators that a request meets:
-- `@Public`, `@OptionalAuth`, `@HttpCode`, and the statuses that `@ApiResponse` documents.
use videum_video_platform.Common.{
  ℕ, Bool, true, false, ◌||◌, List, [], ◌∷◌, Option, none, some, Text, Result, ok, err, ◌==◌,
}
use videum_video_platform.Http.Guard.{JwtPayload, Activation, activated, unauthorized, can_activate}
use videum_video_platform.Http.Errors.{
  ApiErrorEnvelope, Message, filter_domain_exception, filter_validation_exception,
}

-- One constructor for each handler.
pub data Route : Type 0 where
  register_route confirm_email_route resend_confirmation_route login_route refresh_route
        forgot_password_route reset_password_route logout_route me_route :
      Route
  create_route complete_route get_for_playback_route download_route : Route

-- `@Public()`
abbrev pub is_public : Route → Bool
is_public register_route = true
is_public confirm_email_route = true
is_public resend_confirmation_route = true
is_public login_route = true
is_public refresh_route = true
is_public forgot_password_route = true
is_public reset_password_route = true
is_public _ = false

-- `@OptionalAuth()`
abbrev pub is_optional_auth : Route → Bool
is_optional_auth get_for_playback_route = true
is_optional_auth download_route = true
is_optional_auth _ = false

-- `@HttpCode(…)`, the method's default where there is none, and the redirect of a download.
abbrev pub success_status : Route → ℕ
success_status register_route = 201
success_status confirm_email_route = 204
success_status resend_confirmation_route = 204
success_status login_route = 200
success_status refresh_route = 200
success_status forgot_password_route = 204
success_status reset_password_route = 204
success_status logout_route = 204
success_status me_route = 200
success_status create_route = 201
success_status complete_route = 200
success_status get_for_playback_route = 200
success_status download_route = 302

-- `@ApiResponse({ status: … })`
abbrev pub documented : Route → List ℕ
documented register_route = 201 ∷ 400 ∷ 409 ∷ []
documented confirm_email_route = 204 ∷ 400 ∷ 401 ∷ []
documented resend_confirmation_route = 204 ∷ 400 ∷ []
documented login_route = 200 ∷ 400 ∷ 401 ∷ 403 ∷ []
documented refresh_route = 200 ∷ 400 ∷ 401 ∷ []
documented forgot_password_route = 204 ∷ 400 ∷ []
documented reset_password_route = 204 ∷ 400 ∷ 401 ∷ []
documented logout_route = 204 ∷ 401 ∷ []
documented me_route = 200 ∷ 401 ∷ []
documented create_route = 201 ∷ 400 ∷ 401 ∷ []
documented complete_route = 200 ∷ 400 ∷ 401 ∷ 403 ∷ 404 ∷ 409 ∷ 422 ∷ []
documented get_for_playback_route = 200 ∷ 404 ∷ []
documented download_route = 302 ∷ 404 ∷ 409 ∷ []

-- Whether a handler reads a `@Body()` or a `@Query()`.
abbrev pub has_body : Route → Bool
has_body logout_route = false
has_body me_route = false
has_body get_for_playback_route = false
has_body download_route = false
has_body _ = true

abbrev pub member : ℕ → List ℕ → Bool
member n [] = false
member n (m ∷ ms) = n == m || member n ms

-- What the client gets: an error that no filter of the program catches is left to the framework.
pub data Response (A : Type 0) : Type 0 where
  success : ℕ → A → Response A
  failure : ApiErrorEnvelope → Response A
  -- the framework's answer to `UnauthorizedException`
  unauthorized_response : Response A
  -- the framework's answer to `ThrottlerException`
  throttled_response : Response A
  unhandled : Response A

abbrev pub filtered : {A : Type 0} → Option ApiErrorEnvelope → Response A
filtered none = unhandled
filtered (some envelope) = failure envelope

abbrev pub of_result : {A : Type 0} → Route → Result A → Response A
of_result route (ok a) = success (success_status route) a
of_result route (err e) = filtered (filter_domain_exception e)

-- The validation's message, `none` where the body is in order, comes before the handler.
abbrev pub after_guard :
    {A : Type 0}
    → Bool
    → Route
    → Option Message
    → (Option JwtPayload → Result A)
    → Activation
    → Response A
after_guard throttled route invalid handler unauthorized = unauthorized_response
after_guard true route invalid handler (activated user) = throttled_response
after_guard false route none handler (activated user) = of_result route (handler user)
after_guard false route (some message) handler (activated user) =
    failure (filter_validation_exception message)

-- The order of a request: the two guards of nestjs-project/src/auth/auth.module.ts, the validation,
-- the handler, the filters. The Boolean says whether `ThrottlerGuard` is over its limit.
unfoldable pub respond :
    {A : Type 0}
    → (Text → Option JwtPayload)
    → Bool
    → Route
    → Option Text
    → Option Message
    → (Option JwtPayload → Result A)
    → Response A
respond verify throttled route authorization invalid handler =
    after_guard throttled route invalid handler
      (can_activate verify (is_public route) (is_optional_auth route) authorization)

-- The status of a response of the program's own.
abbrev pub status_of : {A : Type 0} → Response A → Option ℕ
status_of (success status a) = some status
status_of (failure envelope) = some envelope.status_code
status_of unauthorized_response = some 401
status_of throttled_response = some 429
status_of unhandled = none

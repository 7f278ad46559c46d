-- ===== src/Frontend/Bff.antt =====
-- The routes next-frontend/app/api/auth/signup/route.ts, next-frontend/app/api/auth/login/route.ts and
-- next-frontend/app/api/auth/forgot-password/route.ts, between a form and the upstream, and what the
-- upstream answers to them: the throttler (nestjs-project/src/auth/auth.module.ts), the validation of
-- the body (nestjs-project/src/auth/dto), the service (nestjs-project/src/auth/auth.service.ts) and
-- the error filters.
use videum_video_platform.Common.{
  ℕ, ◌≡◌, Bool, ◌&&◌, Option, none, some, Text, Result, ok, err, Action, leb, if◌then◌else◌,
}
use videum_video_platform.Auth.Model.{AuthDb, TokenPair}
use videum_video_platform.Frontend.Session.{SessionData, LoginReply, logged_in, post_login}
use videum_video_platform.Http.Errors.{
  Message, ApiErrorEnvelope, filter_domain_exception, filter_validation_exception,
}

-- What `upstream.POST` gives: the data of a successful response, or the status and body of another.
pub data UpstreamReply (A : Type 0) : Type 0 where
  answered : A → UpstreamReply A
  refused : ℕ → ApiErrorEnvelope → UpstreamReply A

-- What a form gets from a route: a status, and an envelope where the route returns one.
pub record RouteReply : Type 0 where
  pub status : ℕ
  pub envelope : Option ApiErrorEnvelope

-- `res.ok`
abbrev pub is_ok : RouteReply → Bool
is_ok reply = leb 200 reply.status && leb reply.status 299

-- `POST` of the signup route.
unfoldable pub post_signup : {A : Type 0} → UpstreamReply A → RouteReply
post_signup (refused status error) = record { status = status; envelope = some error }
post_signup (answered x) = record { status = 201; envelope = none }

-- `POST` of the forgot-password route.
unfoldable pub post_forgot_password : {A : Type 0} → UpstreamReply A → RouteReply
post_forgot_password (refused status error) = record { status = status; envelope = some error }
post_forgot_password (answered x) = record { status = 204; envelope = none }

-- `POST` of the login route, with the session that it seals.
unfoldable pub route_login : UpstreamReply TokenPair → Text → SessionData → RouteReply × SessionData
unfolding post_login
route_login (refused status error) email session = (
  record { status = status; envelope = some error },
  (post_login (LoginReply.refused status) (some email) session).1,
)
route_login (answered pair) email session =
    let (status, session') =
      post_login (logged_in (some pair.access_token) (some pair.refresh_token)) (some email)
        session in
    (record { status = status; envelope = none }, session')

-- What the framework decides and answers.
pub record Framework : Type 0 where
  -- the answer to an error that no filter catches
  pub uncaught : ApiErrorEnvelope
  -- the answer of `ThrottlerGuard` to a request over the limit, nothing where it lets the request in
  pub throttled : Option ApiErrorEnvelope

-- The throttler's answer has the status 429.
abbrev pub ThrottlesWith429 : Framework → Type 0
ThrottlesWith429 framework =
    (reply : ApiErrorEnvelope) → framework.throttled ≡ some reply → reply.status_code ≡ 429

-- The answer to an error that no filter catches is the framework's, an argument.
abbrev pub reply_to : ApiErrorEnvelope → Option ApiErrorEnvelope → ApiErrorEnvelope
reply_to framework none = framework
reply_to framework (some reply) = reply

abbrev pub reply_of : {A : Type 0} → ApiErrorEnvelope → Result A → UpstreamReply A
reply_of framework (ok a) = answered a
reply_of framework (err e) =
    let reply = reply_to framework (filter_domain_exception e) in refused reply.status_code reply

abbrev pub behind_throttler :
    {A : Type 0}
    → Option ApiErrorEnvelope
    → UpstreamReply A × AuthDb
    → AuthDb
    → UpstreamReply A × AuthDb
behind_throttler none result db = result
behind_throttler (some reply) result db = (refused reply.status_code reply, db)

-- A public handler behind the throttler and the validation of its body: the Boolean says whether the body is valid, the
-- message is the validation's.
unfoldable pub validated :
    {A : Type 0} → Framework → Message → Bool → Action AuthDb A → AuthDb → UpstreamReply A × AuthDb
validated framework message valid handler db =
    behind_throttler framework.throttled
      (if valid
        then (reply_of framework.uncaught (handler db).0, (handler db).1)
        else (refused 400 (filter_validation_exception message), db))
      db

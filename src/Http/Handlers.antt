-- ===== src/Http/Handlers.antt =====
-- The methods of nestjs-project/src/auth/auth.controller.ts and
-- nestjs-project/src/videos/videos.controller.ts, each with the call of a service that it makes, and a
-- whole request: the guards, the validation, the method and the filters.
use videum_video_platform.Common.{
  ℕ, Bool, List, Option, none, some, Text, Result, ok, err, internal, Action, if◌then◌else◌,
}
use videum_video_platform.Channels.Channel.{Channel}
use videum_video_platform.Storage.{S3, CompletedPart}
use videum_video_platform.Auth.Model.{AuthDb, AuthConfig, Crypto, Env}
use videum_video_platform.Auth.Sessions.{login, refresh, logout}
use videum_video_platform.Auth.Accounts.{
  register, confirm, resend_confirmation, forgot_password, reset_password,
}
use videum_video_platform.Videos.Model.{VideoDb}
use videum_video_platform.Videos.Service.{
  CreateVideoDto, Draw, create_draft, complete_upload, get_for_playback, get_download_url,
}
use videum_video_platform.Http.Guard.{JwtPayload}
use videum_video_platform.Http.Errors.{Message}
use videum_video_platform.Http.Routes.{
  Route, register_route, confirm_email_route, resend_confirmation_route, login_route, refresh_route,
  forgot_password_route, reset_password_route, logout_route, me_route, create_route, complete_route,
  get_for_playback_route, download_route, has_body, Response, respond,
}

-- A request, with what its method reads of the body, the query and the path.
pub data ApiRequest : Type 0 where
  register_request login_request reset_password_request : Text → Text → ApiRequest
  confirm_email_request resend_confirmation_request refresh_request forgot_password_request :
      Text → ApiRequest
  logout_request me_request : ApiRequest
  create_request : CreateVideoDto → ApiRequest
  complete_request : Text → List CompletedPart → ApiRequest
  get_for_playback_request download_request : Text → ApiRequest

abbrev pub route_of : ApiRequest → Route
route_of (register_request email password) = register_route
route_of (login_request email password) = login_route
route_of (reset_password_request token new_password) = reset_password_route
route_of (confirm_email_request token) = confirm_email_route
route_of (resend_confirmation_request email) = resend_confirmation_route
route_of (refresh_request refresh_token) = refresh_route
route_of (forgot_password_request email) = forgot_password_route
route_of logout_request = logout_route
route_of me_request = me_route
route_of (create_request dto) = create_route
route_of (complete_request public_id parts) = complete_route
route_of (get_for_playback_request public_id) = get_for_playback_route
route_of (download_request public_id) = download_route

-- What the services have, and what a request draws from outside.
pub record Services : Type 0 where
  pub k : Crypto
  pub cfg : AuthConfig
  pub create_channel : ℕ → Text → Action (List Channel) Channel
  pub e : Env
  pub db : AuthDb
  pub s3 : S3
  pub part_size : ℕ
  pub d : Draw
  pub queue_accepts : Bool
  pub videos : VideoDb

-- Whether a call succeeds, and its error; what it returns is left out.
abbrev pub outcome : {A : Type 0} → Result A → Result (Unit {0})
outcome (ok a) = ok tt
outcome (err x) = err x

-- `user.sub`, which throws a `TypeError` without a user.
abbrev pub with_user : (ℕ → Result (Unit {0})) → Option JwtPayload → Result (Unit {0})
with_user f none = err internal
with_user f (some user) = f user.sub

-- `user?.sub`
abbrev pub sub_of : Option JwtPayload → Option ℕ
sub_of none = none
sub_of (some user) = some user.sub

unfoldable pub handle : Services → ApiRequest → Option JwtPayload → Result (Unit {0})
handle s (register_request email password) user =
    outcome (register s.k s.cfg s.create_channel s.e email password s.db).0
handle s (login_request email password) user = outcome (login s.k s.cfg s.e email password s.db).0
handle s (reset_password_request token new_password) user =
    outcome (reset_password s.k s.cfg s.e token new_password s.db).0
handle s (confirm_email_request token) user = outcome (confirm s.k s.cfg s.e token s.db).0
handle s (resend_confirmation_request email) user =
    outcome (resend_confirmation s.k s.cfg s.e email s.db).0
handle s (refresh_request refresh_token) user = outcome (refresh s.k s.cfg s.e refresh_token s.db).0
handle s (forgot_password_request email) user = outcome (forgot_password s.k s.cfg s.e email s.db).0
handle s logout_request user = with_user (λ id. (logout s.e id s.db).0) user
handle s me_request user = ok tt
handle s (create_request dto) user =
    with_user (λ id. outcome (create_draft s.s3 s.part_size s.d id dto s.videos).0) user
handle s (complete_request public_id parts) user =
    with_user (λ id. outcome (complete_upload s.s3 s.queue_accepts id public_id parts s.videos).0)
      user
handle s (get_for_playback_request public_id) user =
    outcome (get_for_playback s.s3 public_id (sub_of user) s.videos).0
handle s (download_request public_id) user =
    outcome (get_download_url s.s3 public_id (sub_of user) s.videos).0

-- A request with its header, the throttler's decision, and the message of the validation, which only a
-- method with a body or a query meets.
unfoldable pub serve :
    Services
    → (Text → Option JwtPayload)
    → Bool
    → Option Text
    → Option Message
    → ApiRequest
    → Response (Unit {0})
serve s verify throttled authorization invalid request =
    respond verify throttled (route_of request) authorization
      (if has_body (route_of request) then invalid else none) (handle s request)

-- ===== src/Frontend/Session.antt =====
-- next-frontend/lib/auth/session.ts, next-frontend/lib/auth/refresh.ts and the routes
-- next-frontend/app/api/auth/login/route.ts and next-frontend/app/api/auth/logout/route.ts. A field
-- that is not set is `none`; the answers of the upstream are arguments.
use videum_video_platform.Common.{
  ℕ, Bool, true, false, not, ◌||◌, [], Option, none, some, Text, ◌==◌, if◌then◌else◌,
}
use videum_video_platform.Storage.{truthy}

pub record SessionData : Type 0 where
  pub access_token : Option Text
  pub refresh_token : Option Text
  pub user_id : Option Text
  pub email : Option Text
  pub channel_slug : Option Text
  pub is_logged_in : Bool

-- What is left after `session.destroy()`.
abbrev pub empty_session : SessionData
empty_session = record {
  access_token = none;
  refresh_token = none;
  user_id = none;
  email = none;
  channel_slug = none;
  is_logged_in = false;
}

-- `setSession`
unfoldable pub set_session :
    Option Text → Option Text → Option Text → Option Text → Option Text → SessionData
set_session access_token refresh_token user_id email channel_slug = record {
  access_token = access_token;
  refresh_token = refresh_token;
  user_id = user_id;
  email = email;
  channel_slug = channel_slug;
  is_logged_in = true;
}

-- The upstream's answer to `/auth/refresh`.
pub record TokenReply : Type 0 where
  pub is_ok : Bool
  pub access_token : Option Text
  pub refresh_token : Option Text

-- `tryRefresh`; the argument answers a request with the given refresh token.
unfoldable pub try_refresh : (Option Text → TokenReply) → SessionData → Bool × SessionData
unfolding set_session
try_refresh upstream session =
    let tokens = upstream session.refresh_token in
    if not tokens.is_ok
    then (false, empty_session)
    else if not (truthy tokens.access_token) || not (truthy tokens.refresh_token)
    then (false, empty_session)
    else (
      true,
      set_session tokens.access_token tokens.refresh_token session.user_id session.email
          session.channel_slug,
    )

-- A response of a fetcher, or the one that `withRefresh` makes when the refresh fails.
pub data Fetched (A : Type 0) : Type 0 where
  fetched : ℕ → A → Fetched A
  session_expired : Fetched A

-- What a call of the fetcher comes to; nothing stands for one that throws.
abbrev pub of_fetcher : {A : Type 0} → Option (ℕ × A) → Option (Fetched A)
of_fetcher none = none
of_fetcher (some (status, body)) = some (fetched status body)

abbrev pub after_refresh :
    {A : Type 0}
    → (SessionData → Option (ℕ × A))
    → Bool × SessionData
    → Option (Fetched A) × SessionData
after_refresh second (false, session) = (some session_expired, session)
after_refresh second (true, session) = (of_fetcher (second session), session)

-- `tryRefresh` throws where the upstream cannot be reached or its answer cannot be read.
abbrev pub after_tokens :
    {A : Type 0}
    → (SessionData → Option (ℕ × A))
    → SessionData
    → Option TokenReply
    → Option (Fetched A) × SessionData
after_tokens second session none = (none, session)
after_tokens second session (some tokens) =
    after_refresh second (try_refresh (λ token. tokens) session)

abbrev pub after_first :
    {A : Type 0}
    → (SessionData → Option (ℕ × A))
    → (Option Text → Option TokenReply)
    → SessionData
    → Option (ℕ × A)
    → Option (Fetched A) × SessionData
after_first second upstream session none = (none, session)
after_first second upstream session (some (status, body)) =
    if not (status == 401)
    then (some (fetched status body), session)
    else after_tokens second session (upstream session.refresh_token)

-- `withRefresh`, for one request at a time. The two calls of the fetcher read the session, and may
-- answer differently; nothing stands for what throws, in the result too.
unfoldable pub with_refresh :
    {A : Type 0}
    → (SessionData → Option (ℕ × A))
    → (SessionData → Option (ℕ × A))
    → (Option Text → Option TokenReply)
    → SessionData
    → Option (Fetched A) × SessionData
unfolding try_refresh
with_refresh first second upstream session = after_first second upstream session (first session)

-- The upstream's answer to `/auth/login`.
pub data LoginReply : Type 0 where
  logged_in : Option Text → Option Text → LoginReply
  refused : ℕ → LoginReply

-- `tokens.access_token ?? ""`
abbrev pub or_blank : Option Text → Text
or_blank none = []
or_blank (some text) = text

-- `POST` of the login route: the status of the answer and the session.
unfoldable pub post_login : LoginReply → Option Text → SessionData → ℕ × SessionData
unfolding set_session
post_login (refused status) email session = (status, session)
post_login (logged_in access_token refresh_token) email session = (
  200,
  set_session (some (or_blank access_token)) (some (or_blank refresh_token)) (some [])
      (some (or_blank email)) (some []),
)

-- `POST` of the logout route, whatever the upstream answers.
unfoldable pub post_logout : SessionData → ℕ × SessionData
post_logout session = (204, empty_session)

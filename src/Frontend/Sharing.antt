-- ===== src/Frontend/Sharing.antt =====
-- Requests of next-frontend/lib/auth/refresh.ts that run at the same time and share the variable
-- `refreshPromise` of the module. The thread of an index is one request of a browser, with the
-- cookies of that request. What a call of its fetcher may come to with these cookies, a response or,
-- where there is none, an error, is a relation: two calls may answer differently.
pub mod Flight
pub mod Ending
pub mod Joining
use videum_video_platform.Common.{ℕ, ◌+◌, ◌≡◌, ◌≢◌, Bool, true, false, Option, none, some, update}
use videum_video_platform.Frontend.Session.{
  SessionData, TokenReply, try_refresh, Fetched, fetched, session_expired,
}

-- A promise of `tryRefresh`: its number, and the request whose call it runs in.
pub record RefreshPromise : Type 0 where
  pub number : ℕ
  pub request : ℕ

-- How a promise settles; it is rejected if the upstream cannot be reached.
pub data Settled : Type 0 where
  resolved : Bool → Settled
  rejected : Settled

pub record Shared : Type 0 where
  pub sessions : ℕ → SessionData
  -- `refreshPromise`
  pub refresh_promise : Option RefreshPromise
  pub promises_made : ℕ
  pub settled : ℕ → Option Settled

-- Where a call of `withRefresh` stands: before the first response, in its own `tryRefresh`, at
-- `await refreshOnce()`, before the second response, or at its end.
pub data CallPoint (A : Type 0) : Type 0 where
  fetching : CallPoint A
  refreshing awaiting : ℕ → CallPoint A
  retrying : CallPoint A
  responded : Fetched A → CallPoint A
  threw : CallPoint A

-- `refreshOnce` in a request: whether the call starts the refresh, and the number of the promise.
unfoldable pub refresh_once : ℕ → Shared → Option RefreshPromise → Bool × ℕ × Shared
refresh_once i m none = (
  true,
  m.promises_made,
  record m {
    refresh_promise = some (record { number = m.promises_made; request = i });
    promises_made = m.promises_made + 1;
  },
)
refresh_once i m (some promise) = (false, promise.number, m)

abbrev pub after_once : {A : Type 0} → Bool → ℕ → CallPoint A
after_once true n = refreshing n
after_once false n = awaiting n

-- The end of `tryRefresh` and its `finally`; no reply stands for an upstream that is not reached.
unfoldable pub settle : ℕ → ℕ → Option TokenReply → Shared → Shared
settle i n none m = record m {
  refresh_promise = none;
  settled = update m.settled n (some rejected);
}
settle i n (some reply) m =
    let (refreshed, session) = try_refresh (λ token. reply) (m.sessions i) in
    record m {
      sessions = update m.sessions i session;
      refresh_promise = none;
      settled = update m.settled n (some (resolved refreshed));
    }

-- What a call does once its promise has settled.
abbrev pub after_await : {A : Type 0} → Settled → CallPoint A
after_await (resolved true) = retrying
after_await (resolved false) = responded session_expired
after_await rejected = threw

module _ {A : Type 0} (Answers : ℕ → SessionData → Option (ℕ × A) → Type 0) where
  -- One step of the call of a request, `i`.
  pub data Move (i : ℕ) (m : Shared) : CallPoint A → Shared → CallPoint A → Type 0 where
    respond :
        (status : ℕ) (body : A)
        → Answers i (m.sessions i) (some (status, body))
        → status ≢ 401
        → Move i m fetching m (responded (fetched status body))
    fail : Answers i (m.sessions i) none → Move i m fetching m threw
    once :
        (body : A)
        → Answers i (m.sessions i) (some (401, body))
        → Move i m fetching (refresh_once i m m.refresh_promise).2 (
            after_once
              (refresh_once i m m.refresh_promise).0
              (refresh_once i m m.refresh_promise).1)
    finish :
        (n : ℕ) (reply : Option TokenReply)
        → Move i m (refreshing n) (settle i n reply m) (awaiting n)
    wake : (n : ℕ) (s : Settled) → m.settled n ≡ some s → Move i m (awaiting n) m (after_await s)
    retry :
        (status : ℕ) (body : A)
        → Answers i (m.sessions i) (some (status, body))
        → Move i m retrying m (responded (fetched status body))
    retry_fail : Answers i (m.sessions i) none → Move i m retrying m threw

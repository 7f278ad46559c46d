-- ===== src/Tests/SharingTests.antt =====
-- Two requests of the frontend that meet a 401 at the same time.
use videum_video_platform.Common.{
  ℕ, ◌≡◌, ◌≢◌, refl, true, [], ◌∷◌, Option, none, some, update, System, Step, Reach, start, later,
  pick,
}
use videum_video_platform.Frontend.Session.{SessionData, fetched}
use videum_video_platform.Frontend.Sharing.{
  Shared, CallPoint, fetching, refreshing, awaiting, responded, refresh_once, Move, once,
}
use videum_video_platform.Frontend.Sharing.Flight.{one_refresh_at_a_time}
use videum_video_platform.Frontend.Sharing.Ending.{IsEnded, call-can_end}
use videum_video_platform.Frontend.Sharing.Joining.{joined-not_renewed}

-- An upstream that refuses every access token.
abbrev Refusals : ℕ → SessionData → Option (ℕ × ℕ) → Type 0
Refusals i session o = o ≡ some (401, i)

abbrev ann_session : SessionData
ann_session = record {
  access_token = some (1 ∷ []);
  refresh_token = some (2 ∷ []);
  user_id = some [];
  email = some [];
  channel_slug = some [];
  is_logged_in = true;
}

abbrev fresh : System Shared (CallPoint ℕ)
fresh = record {
  memory = record {
    sessions = λ i. ann_session;
    refresh_promise = none;
    promises_made = 0;
    settled = λ n. none;
  };
  point = λ i. fetching;
}

abbrev one_started : System Shared (CallPoint ℕ)
one_started = record {
  memory = record {
    sessions = λ i. ann_session;
    refresh_promise = some (record { number = 0; request = 0 });
    promises_made = 1;
    settled = λ n. none;
  };
  point = update fresh.point 0 (refreshing 0);
}

abbrev both_started : System Shared (CallPoint ℕ)
both_started = record {
  memory = one_started.memory;
  point = update one_started.point 1 (awaiting 0);
}

one_started-reached : Reach (Move Refusals) fresh one_started
unfolding refresh_once
one_started-reached = later start (pick 0 (once _ refl))

one_refresh_at_a_time_example : ◌≡◌ {A = ℕ} 0 0
one_refresh_at_a_time_example =
    one_refresh_at_a_time Refusals fresh one_started 0 0 0 0 (refl, λ i. refl) one_started-reached
      refl refl

both_started-reached : Reach (Move Refusals) fresh both_started
unfolding refresh_once
both_started-reached = later one_started-reached (pick 1 (once _ refl))

call-can_end_example :
    (u : System Shared (CallPoint ℕ)) × Reach (Move Refusals) both_started u × IsEnded (u.point 1)
call-can_end_example =
    call-can_end Refusals (λ i session. (_, refl)) none fresh (refl, λ i. refl) both_started 1
      both_started-reached

joined-not_renewed_example :
    Step (Move Refusals) one_started both_started
    × (both_started.memory.sessions 1 ≡ ann_session)
    × ((n : ℕ) → both_started.point 1 ≢ refreshing n)
    × ((status body : ℕ)
        → both_started.point 1 ≡ responded (fetched status body)
        → Refusals 1 ann_session (some (status, body)))
joined-not_renewed_example =
    joined-not_renewed Refusals one_started both_started 1 1 (record { number = 0; request = 0 })
      refl refl refl start

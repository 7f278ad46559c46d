-- ===== src/Frontend/Sharing/Joining.antt =====
-- `withRefresh` of next-frontend/lib/auth/refresh.ts in a request that finds a refresh under way.
use videum_video_platform.Common.{
  ℕ, ◌≡◌, refl, ◌≢◌, sym, ◌∙◌, true, false, Option, none, some, update, System, Step, Reach,
  Reach-Holds, pick, arith, subst, ==_refl,
}
use videum_video_platform.Frontend.Session.{SessionData, TokenReply, fetched}
use videum_video_platform.Frontend.Sharing.{
  RefreshPromise, Settled, resolved, rejected, Shared, CallPoint, fetching, refreshing, awaiting,
  responded, refresh_once, after_once, settle, after_await, Move, respond, once, finish, wake,
  retry, fail, retry_fail,
}

settle-sessions :
    (i j n : ℕ) (reply : Option TokenReply) (m : Shared)
    → i ≢ j
    → (settle i n reply m).sessions j ≡ m.sessions j
unfolding settle
settle-sessions i j n none m other = refl
settle-sessions i j n (some reply) m other = ground arith

refresh_once-sessions :
    (i j : ℕ) (m : Shared) (o : Option RefreshPromise)
    → (refresh_once i m o).2.sessions j ≡ m.sessions j
unfolding refresh_once
refresh_once-sessions i j m none = refl
refresh_once-sessions i j m (some promise) = refl

module _ {A : Type 0} (Answers : ℕ → SessionData → Option (ℕ × A) → Type 0) (i : ℕ)
    (session : SessionData) where
  -- The call is past its first response, and answers with what its session gets.
  abbrev Follows : CallPoint A → Type 0
  Follows (responded (fetched status body)) = Answers i session (some (status, body))
  Follows fetching = ⊥
  Follows (refreshing n) = ⊥
  Follows _ = Unit

  abbrev IsFollower : ℕ → Shared → CallPoint A → Type 0
  IsFollower j m p = j ≡ i → (m.sessions i ≡ session) × Follows p

  Follows-after_await : (s : Settled) → Follows (after_await s)
  Follows-after_await (resolved true) = tt
  Follows-after_await (resolved false) = tt
  Follows-after_await rejected = tt

  follow :
      (m : Shared) (p : CallPoint A) (m' : Shared) (p' : CallPoint A)
      → Move Answers i m p m' p'
      → (m.sessions i ≡ session) × Follows p
      → (m'.sessions i ≡ session) × Follows p'
  follow m p m' p' (wake n s done) (same, at) = (same, Follows-after_await s)
  follow m p m' p' (retry status body answer) (same, at) =
      (same, subst (λ x. Answers i x (some (status, body))) same answer)
  follow m p m' p' (retry_fail answer) (same, at) = (same, tt)
  follow m p m' p' (fail answer) (same, at) = absurd at
  follow m p m' p' (respond status body answer ok_now) (same, at) = absurd at
  follow m p m' p' (once body answer) (same, at) = absurd at
  follow m p m' p' (finish n reply) (same, at) = absurd at

  sessions-kept :
      (j : ℕ) (m : Shared) (p : CallPoint A) (m' : Shared) (p' : CallPoint A)
      → j ≢ i
      → Move Answers j m p m' p'
      → m'.sessions i ≡ m.sessions i
  sessions-kept j m p m' p' other (wake n s done) = refl
  sessions-kept j m p m' p' other (retry status body answer) = refl
  sessions-kept j m p m' p' other (retry_fail answer) = refl
  sessions-kept j m p m' p' other (fail answer) = refl
  sessions-kept j m p m' p' other (respond status body answer ok_now) = refl
  sessions-kept j m p m' p' other (once body answer) = refresh_once-sessions j i m m.refresh_promise
  sessions-kept j m p m' p' other (finish n reply) = settle-sessions j i n reply m other

  Reach-IsFollower :
      {s t : System Shared (CallPoint A)}
      → Reach (Move Answers) s t
      → s.memory.sessions i ≡ session
      → Follows (s.point i)
      → (t.memory.sessions i ≡ session) × Follows (t.point i)
  Reach-IsFollower {s} {t} reach same at =
      (Reach-Holds (λ m. Unit {0}) (λ j m p. IsFollower j m p)
          (λ j m p m' p' move inv h.
            (tt, λ e. follow m p m' p' (subst (λ x. Move Answers x m p m' p') e move) (h e)))
          (λ j j' m p m' p' q other move inv h h' e.
            (sessions-kept j m p m' p' (λ e'. other (e' ∙ sym e)) move ∙ (h' e).0, (h' e).1))
          reach (tt, λ j e. (same, subst (λ x. Follows (s.point x)) (sym e) at))).1
        i refl

  Follows-fetched :
      (p : CallPoint A) (status : ℕ) (body : A)
      → Follows p
      → p ≡ responded (fetched status body)
      → Answers i session (some (status, body))
  Follows-fetched p status body at e = subst Follows e at

module _ {A : Type 0} (Answers : ℕ → SessionData → Option (ℕ × A) → Type 0) where
  -- A request whose first response is a 401 while another request is refreshing awaits that
  -- refresh, but its own session is not renewed by it: from then on its session stays as it is, the
  -- call never refreshes it, and a response that the call returns in the end is one that the
  -- fetcher gives to the session that it answered with a 401.
  pub joined-not_renewed :
      (s t : System Shared (CallPoint A)) (i : ℕ) (body : A) (promise : RefreshPromise)
      → s.point i ≡ fetching
      → Answers i (s.memory.sessions i) (some (401, body))
      → s.memory.refresh_promise ≡ some promise
      → let s' : System Shared (CallPoint A) = record {
        memory = s.memory;
        point = update s.point i (awaiting promise.number);
      } in
        Reach (Move Answers) s' t
        → Step (Move Answers) s s'
          × (t.memory.sessions i ≡ s.memory.sessions i)
          × ((n : ℕ) → t.point i ≢ refreshing n)
          × ((status : ℕ) (body' : A)
              → t.point i ≡ responded (fetched status body')
              → Answers i (s.memory.sessions i) (some (status, body')))
  unfolding refresh_once
  joined-not_renewed s t i body promise at expired under_way reach =
      let move =
        subst
          (λ o.
            Move Answers i s.memory fetching (refresh_once i s.memory o).2
              (after_once (refresh_once i s.memory o).0 (refresh_once i s.memory o).1))
          under_way (once body expired) in
      let point : update s.point i (awaiting promise.number) i ≡ awaiting promise.number =
        rw (==_refl i) in
      let (kept, follows) =
        Reach-IsFollower Answers i (s.memory.sessions i) reach refl
          (subst (Follows Answers i (s.memory.sessions i)) (sym point) tt) in
      (
        pick i (
            subst (λ p. Move Answers i s.memory p s.memory (awaiting promise.number)) (sym at)
              move),
        kept,
        λ n e. subst (Follows Answers i (s.memory.sessions i)) e follows,
        λ status body' e. Follows-fetched Answers i _ _ status body' follows e,
      )

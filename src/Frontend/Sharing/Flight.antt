-- ===== src/Frontend/Sharing/Flight.antt =====
-- `refreshOnce` of next-frontend/lib/auth/refresh.ts: what its variable guarantees.
use videum_video_platform.Common.{
  ℕ, ◌≡◌, refl, ◌≢◌, ◌⊎◌, inl, inr, ap, sym, ◌∙◌, true, false, Option, none, some, is_some, System,
  Reach, Reach-Holds, arith, subst,
}
use videum_video_platform.Frontend.Session.{SessionData, TokenReply}
use videum_video_platform.Frontend.Sharing.{
  RefreshPromise, Settled, resolved, rejected, Shared, CallPoint, fetching, refreshing, awaiting,
  retrying, responded, threw, refresh_once, after_once, settle, after_await, Move, respond, once,
  finish, wake, retry, fail, retry_fail,
}

abbrev pub promise_of : ℕ → ℕ → Option RefreshPromise
promise_of n i = some (record { number = n; request = i })

promise-request : {n n' i j : ℕ} → promise_of n i ≡ promise_of n' j → i ≡ j
promise-request e = ground arith

settle-free :
    (i n : ℕ) (reply : Option TokenReply) (m : Shared) → (settle i n reply m).refresh_promise ≡ none
unfolding settle
settle-free i n none m = refl
settle-free i n (some reply) m = refl

pub settle-settled :
    (i n n' : ℕ) (reply : Option TokenReply) (m : Shared)
    → (is_some (m.settled n') ≡ true) ⊎ (n' ≡ n)
    → is_some ((settle i n reply m).settled n') ≡ true
unfolding settle
settle-settled i n n' none m h = ground arith
settle-settled i n n' (some reply) m h = ground arith

module _ {A : Type 0} where
  -- A call that refreshes owns the promise of the variable; the promise that a call awaits has
  -- settled or is that of the variable.
  abbrev pub At : ℕ → Shared → CallPoint A → Type 0
  At i m (refreshing n) = m.refresh_promise ≡ promise_of n i
  At i m (awaiting n) =
      (is_some (m.settled n) ≡ true) ⊎ ((r : ℕ) × (m.refresh_promise ≡ promise_of n r))
  At i m _ = Unit

  abbrev pub IsTracked : ℕ → Shared → CallPoint A → Type 0
  IsTracked i m p = ((n : ℕ) → m.refresh_promise ≡ promise_of n i → p ≡ refreshing n) × At i m p

  -- No refresh runs, and every call waits for its first response.
  abbrev pub IsIdle : System Shared (CallPoint A) → Type 0
  IsIdle s = (s.memory.refresh_promise ≡ none) × ((i : ℕ) → s.point i ≡ fetching)

  IsTracked-idle :
      (i : ℕ) (m : Shared) (p : CallPoint A)
      → ((n : ℕ) → m.refresh_promise ≢ promise_of n i)
      → At i m p
      → IsTracked i m p
  IsTracked-idle i m p none_of at = (λ n same. absurd (none_of n same), at)

  -- A promise of the call's own would have the call in its refresh.
  not_own :
      (i : ℕ) (m : Shared) (p : CallPoint A)
      → ((n : ℕ) → p ≢ refreshing n)
      → IsTracked i m p
      → (n : ℕ) → m.refresh_promise ≢ promise_of n i
  not_own i m p other (own, at) n same = other n (own n same)

  IsTracked-once :
      (i : ℕ) (m : Shared) (o : Option RefreshPromise)
      → m.refresh_promise ≡ o
      → ((n : ℕ) → m.refresh_promise ≢ promise_of n i)
      → IsTracked i
          (refresh_once i m o).2
          (after_once (refresh_once i m o).0 (refresh_once i m o).1)
  unfolding refresh_once
  IsTracked-once i m none e own =
      (λ n same. (let e' : m.promises_made ≡ n = ground arith in ap refreshing e'), refl)
  IsTracked-once i m (some promise) e own =
      (λ n same. absurd (own n same), inr (promise.request, e))

  IsTracked-after_await :
      (i : ℕ) (m : Shared) (s : Settled)
      → ((n : ℕ) → m.refresh_promise ≢ promise_of n i)
      → IsTracked i m (after_await s)
  IsTracked-after_await i m (resolved true) own = IsTracked-idle i m retrying own tt
  IsTracked-after_await i m (resolved false) own = IsTracked-idle i m _ own tt
  IsTracked-after_await i m rejected own = IsTracked-idle i m threw own tt

  IsTracked-once_other :
      (i j : ℕ) (m : Shared) (o : Option RefreshPromise) (q : CallPoint A)
      → i ≢ j
      → m.refresh_promise ≡ o
      → IsTracked j m q
      → IsTracked j (refresh_once i m o).2 q
  unfolding refresh_once
  IsTracked-once_other i j m (some promise) q other e at = at
  IsTracked-once_other i j m none q other e (own, at) =
      (λ n same. absurd (other (promise-request same)), still q at)
    where
      still : (q : CallPoint A) → At j m q → At j (refresh_once i m none).2 q
      still (refreshing n) at = absurd (ground arith)
      still (awaiting n) (inl done) = inl done
      still (awaiting n) (inr (r, same)) = absurd (ground arith)
      still fetching at = tt
      still retrying at = tt
      still (responded x) at = tt
      still threw at = tt

  IsTracked-settle_other :
      (i j n : ℕ) (reply : Option TokenReply) (m : Shared) (q : CallPoint A)
      → i ≢ j
      → m.refresh_promise ≡ promise_of n i
      → IsTracked j m q
      → IsTracked j (settle i n reply m) q
  IsTracked-settle_other i j n reply m q other mine (own, at) =
      let free = settle-free i n reply m in (λ n' same. absurd (ground arith), still q at)
    where
      still : (q : CallPoint A) → At j m q → At j (settle i n reply m) q
      still (refreshing n') at = absurd (ground arith)
      still (awaiting n') (inl done) = inl (settle-settled i n n' reply m (inl done))
      still (awaiting n') (inr (r, same)) = inl (settle-settled i n n' reply m (inr (ground arith)))
      still fetching at = tt
      still retrying at = tt
      still (responded x) at = tt
      still threw at = tt

module _ {A : Type 0} (Answers : ℕ → SessionData → Option (ℕ × A) → Type 0) where
  Move-own :
      (i : ℕ) (m : Shared) (p : CallPoint A) (m' : Shared) (p' : CallPoint A)
      → Move Answers i m p m' p'
      → Unit {0}
      → IsTracked i m p
      → (Unit {0}) × IsTracked i m' p'
  Move-own i m p m' p' (respond status body answer other) inv at =
      (tt, IsTracked-idle i m _ (not_own i m fetching (λ n e. cc) at) tt)
  Move-own i m p m' p' (fail answer) inv at =
      (tt, IsTracked-idle i m _ (not_own i m fetching (λ n e. cc) at) tt)
  Move-own i m p m' p' (once body answer) inv at =
      (tt, IsTracked-once i m m.refresh_promise refl (not_own i m fetching (λ n e. cc) at))
  Move-own i m p m' p' (finish n reply) inv at =
      let free = settle-free i n reply m in
      (
        tt,
        IsTracked-idle i (settle i n reply m) (awaiting n) (λ n' e. ground arith)
            (inl (settle-settled i n n reply m (inr refl))),
      )
  Move-own i m p m' p' (wake n s done) inv at =
      (tt, IsTracked-after_await i m s (not_own i m (awaiting n) (λ n e. cc) at))
  Move-own i m p m' p' (retry_fail answer) inv at =
      (tt, IsTracked-idle i m _ (not_own i m retrying (λ n e. cc) at) tt)
  Move-own i m p m' p' (retry status body answer) inv at =
      (tt, IsTracked-idle i m _ (not_own i m retrying (λ n e. cc) at) tt)

  Move-others :
      (i j : ℕ) (m : Shared) (p : CallPoint A) (m' : Shared) (p' q : CallPoint A)
      → i ≢ j
      → Move Answers i m p m' p'
      → Unit {0}
      → IsTracked i m p
      → IsTracked j m q
      → IsTracked j m' q
  Move-others i j m p m' p' q other (respond status body answer ok_now) inv at at' = at'
  Move-others i j m p m' p' q other (fail answer) inv at at' = at'
  Move-others i j m p m' p' q other (once body answer) inv at at' =
      IsTracked-once_other i j m m.refresh_promise q other refl at'
  Move-others i j m p m' p' q other (finish n reply) inv at at' =
      IsTracked-settle_other i j n reply m q other at.1 at'
  Move-others i j m p m' p' q other (wake n s done) inv at at' = at'
  Move-others i j m p m' p' q other (retry status body answer) inv at at' = at'
  Move-others i j m p m' p' q other (retry_fail answer) inv at at' = at'

  pub Reach-IsTracked :
      {s t : System Shared (CallPoint A)}
      → IsIdle s
      → Reach (Move Answers) s t
      → (i : ℕ) → IsTracked i t.memory (t.point i)
  Reach-IsTracked {s} (free, idle) reach =
      (Reach-Holds (λ m. Unit {0}) (λ i m p. IsTracked i m p) Move-own Move-others reach
        (
          tt,
          λ i.
              subst (λ p. IsTracked i s.memory p) (sym (idle i))
                ((λ n same. absurd (ground arith)), tt),
        )).1

  -- At any time, at most one request of those that share the variable is refreshing its tokens. At
  -- the start no refresh runs, and every call waits for its first response.
  pub one_refresh_at_a_time :
      (s t : System Shared (CallPoint A)) (i j n n' : ℕ)
      → IsIdle s
      → Reach (Move Answers) s t
      → t.point i ≡ refreshing n
      → t.point j ≡ refreshing n'
      → i ≡ j
  one_refresh_at_a_time s t i j n n' idle reach here there =
      let mine = subst (At i t.memory) here (Reach-IsTracked idle reach i).1 in
      let theirs = subst (At j t.memory) there (Reach-IsTracked idle reach j).1 in
      promise-request (sym mine ∙ theirs)

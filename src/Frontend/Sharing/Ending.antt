-- ===== src/Frontend/Sharing/Ending.antt =====
-- `withRefresh` of next-frontend/lib/auth/refresh.ts: no call that waits is forgotten.
use videum_video_platform.Common.{
  ℕ, ◌≡◌, refl, ◌≢◌, inl, inr, ap, sym, ◌∙◌, Bool, true, false, Option, none, some, is_some, update,
  System, Reach, Reach-append, start, later, pick, Option-cases, Bool-cases, arith, subst, ◌==◌,
  ==_refl,
}
use videum_video_platform.Frontend.Session.{SessionData, TokenReply}
use videum_video_platform.Frontend.Sharing.{
  Settled, resolved, rejected, Shared, CallPoint, fetching, refreshing, awaiting, retrying,
  responded, threw, after_once, settle, after_await, Move, respond, once, finish, wake, retry, fail,
  retry_fail,
}
use videum_video_platform.Frontend.Sharing.Flight.{IsIdle, At, Reach-IsTracked, settle-settled}

module _ {A : Type 0} where
  -- The call has returned a response or thrown.
  abbrev pub IsEnded : CallPoint A → Type 0
  IsEnded (responded x) = Unit
  IsEnded threw = Unit
  IsEnded _ = ⊥

  update_self : (f : ℕ → CallPoint A) (i : ℕ) (p : CallPoint A) → update f i p i ≡ p
  update_self f i p = rw (==_refl i)

  update_other : (f : ℕ → CallPoint A) (i j : ℕ) (p : CallPoint A) → i ≢ j → update f i p j ≡ f j
  update_other f i j p other = ground arith

module _ {A : Type 0} (Answers : ℕ → SessionData → Option (ℕ × A) → Type 0)
    (settles : (i : ℕ) (session : SessionData) → (o : Option (ℕ × A)) × Answers i session o) where
  abbrev CanEnd : System Shared (CallPoint A) → ℕ → Type 0
  CanEnd t i = (u : System Shared (CallPoint A)) × Reach (Move Answers) t u × IsEnded (u.point i)

  abbrev moved :
      System Shared (CallPoint A) → ℕ → Shared → CallPoint A → System Shared (CallPoint A)
  moved t i m p = record { memory = m; point = update t.point i p }

  step :
      (t : System Shared (CallPoint A)) (i : ℕ) (p : CallPoint A) (m' : Shared) (p' : CallPoint A)
      → t.point i ≡ p
      → Move Answers i t.memory p m' p'
      → Reach (Move Answers) t (moved t i m' p')
  step t i p m' p' at move =
      later start (pick i (subst (λ q. Move Answers i t.memory q m' p') (sym at) move))

  CanEnd-step :
      (t : System Shared (CallPoint A)) (i : ℕ) (p : CallPoint A) (j : ℕ) (m' : Shared)
      (p' : CallPoint A)
      → t.point j ≡ p
      → Move Answers j t.memory p m' p'
      → CanEnd (moved t j m' p') i
      → CanEnd t i
  CanEnd-step t i p j m' p' at move (u, reach, ended) =
      (u, Reach-append (step t j p m' p' at move) reach, ended)

  CanEnd-ended :
      (t : System Shared (CallPoint A)) (i : ℕ) (p : CallPoint A)
      → t.point i ≡ p
      → IsEnded p
      → CanEnd t i
  CanEnd-ended t i p at ended = (t, start, subst IsEnded (sym at) ended)

  CanEnd-retrying : (t : System Shared (CallPoint A)) (i : ℕ) → t.point i ≡ retrying → CanEnd t i
  CanEnd-retrying t i at = let (o, answer) = settles i (t.memory.sessions i) in go o answer
    where
      go : (o : Option (ℕ × A)) → Answers i (t.memory.sessions i) o → CanEnd t i
      go none answer =
          CanEnd-step t i retrying i t.memory threw at (retry_fail answer)
            (CanEnd-ended _ i threw (update_self t.point i _) tt)
      go (some (status, body)) answer =
          CanEnd-step t i retrying i t.memory _ at (retry status body answer)
            (CanEnd-ended _ i _ (update_self t.point i _) tt)

  CanEnd-after_await :
      (t : System Shared (CallPoint A)) (i : ℕ) (s : Settled)
      → t.point i ≡ after_await s
      → CanEnd t i
  CanEnd-after_await t i (resolved true) at = CanEnd-retrying t i at
  CanEnd-after_await t i (resolved false) at = CanEnd-ended t i _ at tt
  CanEnd-after_await t i rejected at = CanEnd-ended t i threw at tt

  CanEnd-settled :
      (t : System Shared (CallPoint A)) (i n : ℕ)
      → t.point i ≡ awaiting n
      → is_some (t.memory.settled n) ≡ true
      → CanEnd t i
  CanEnd-settled t i n at done = elim (Option-cases (t.memory.settled n)) [
    | inl pending ↦ absurd (ground arith)
    | inr (s, e) ↦
        CanEnd-step t i (awaiting n) i t.memory (after_await s) at (wake n s e)
          (CanEnd-after_await _ i s (update_self t.point i _))
  ]

  module _ (reply : Option TokenReply) (s : System Shared (CallPoint A)) (idle : IsIdle s) where
    not_both :
        (t : System Shared (CallPoint A)) (r i n : ℕ)
        → t.point r ≡ refreshing n
        → t.point i ≡ awaiting n
        → r ≢ i
    not_both t r i n theirs at same = (let e = ap t.point same in absurd (cc))

    CanEnd-refreshing :
        (t : System Shared (CallPoint A)) (i n : ℕ) → t.point i ≡ refreshing n → CanEnd t i
    CanEnd-refreshing t i n at =
        CanEnd-step t i (refreshing n) i (settle i n reply t.memory) (awaiting n) at
          (finish n reply)
          (CanEnd-settled _ i n (update_self t.point i _)
            (settle-settled i n n reply t.memory (inr refl)))

    CanEnd-awaiting :
        (t : System Shared (CallPoint A)) (i n : ℕ)
        → Reach (Move Answers) s t
        → t.point i ≡ awaiting n
        → CanEnd t i
    CanEnd-awaiting t i n reach at =
        go (subst (At {A = A} i t.memory) at (Reach-IsTracked Answers idle reach i).1)
      where
        go : At {A = A} i t.memory (awaiting n) → CanEnd t i
        go (inl done) = CanEnd-settled t i n at done
        go (inr (r, e)) =
            let theirs : t.point r ≡ refreshing n = (Reach-IsTracked Answers idle reach r).0 n e in
            CanEnd-step t i (refreshing n) r (settle r n reply t.memory) (awaiting n) theirs
              (finish n reply)
              (CanEnd-settled _ i n
                (update_other t.point r i _ (λ same. not_both t r i n theirs at same) ∙ at)
                (settle-settled r n n reply t.memory (inr refl)))

    CanEnd-after_once :
        (t : System Shared (CallPoint A)) (i : ℕ) (starts : Bool) (n : ℕ)
        → Reach (Move Answers) s t
        → t.point i ≡ after_once starts n
        → CanEnd t i
    CanEnd-after_once t i true n reach at = CanEnd-refreshing t i n at
    CanEnd-after_once t i false n reach at = CanEnd-awaiting t i n reach at

    CanEnd-fetching :
        (t : System Shared (CallPoint A)) (i : ℕ)
        → Reach (Move Answers) s t
        → t.point i ≡ fetching
        → CanEnd t i
    CanEnd-fetching t i reach at = let (o, answer) = settles i (t.memory.sessions i) in go o answer
      where
        go : (o : Option (ℕ × A)) → Answers i (t.memory.sessions i) o → CanEnd t i
        go none answer =
            CanEnd-step t i fetching i t.memory threw at (fail answer)
              (CanEnd-ended _ i threw (update_self t.point i _) tt)
        go (some (status, body)) answer = elim (Bool-cases (status == 401)) [
          | inr other ↦
              CanEnd-step t i fetching i t.memory _ at (respond status body answer (ground arith))
                (CanEnd-ended _ i _ (update_self t.point i _) tt)
          | inl expired ↦
              let same : status ≡ 401 = ground arith in
              let move : Move Answers i t.memory fetching _ _ =
                once body
                  (subst (λ n. Answers i (t.memory.sessions i) (some (n, body))) same answer) in
              CanEnd-step t i fetching i _ _ at move (
                CanEnd-after_once _ i _ _ (Reach-append reach (step t i fetching _ _ at move))
                  (update_self t.point i _))
        ]

    -- Whatever requests share the variable and whatever has happened, each call can still come to
    -- its end, for any reply of the upstream: it returns a response or throws. In particular a call
    -- that awaits the refresh of another request can be woken. At the start no refresh runs, and
    -- every call waits for its first response. The fetcher is taken to answer or to throw.
    pub call-can_end :
        (t : System Shared (CallPoint A)) (i : ℕ)
        → Reach (Move Answers) s t
        → (u : System Shared (CallPoint A)) × Reach (Move Answers) t u × IsEnded (u.point i)
    call-can_end t i reach = go (t.point i) refl
      where
        go : (p : CallPoint A) → t.point i ≡ p → CanEnd t i
        go fetching at = CanEnd-fetching t i reach at
        go (refreshing n) at = CanEnd-refreshing t i n at
        go (awaiting n) at = CanEnd-awaiting t i n reach at
        go retrying at = CanEnd-retrying t i at
        go (responded x) at = CanEnd-ended t i (responded x) at tt
        go threw at = CanEnd-ended t i threw at tt

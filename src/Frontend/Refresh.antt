-- ===== src/Frontend/Refresh.antt =====
-- `withRefresh` of next-frontend/lib/auth/refresh.ts, by itself and against the upstream's `refresh`
-- (nestjs-project/src/auth/auth.service.ts).
use videum_video_platform.Common.{
  ℕ, ◌≡◌, ◌≢◌, refl, ap, sym, subst, ◌⊎◌, inl, inr, true, false, Option, none, some, Text, ◌==◌,
  Bool-cases, Option-cases, arith,
}
use videum_video_platform.Storage.{truthy}
use videum_video_platform.Frontend.Session.{
  SessionData, empty_session, set_session, TokenReply, try_refresh, Fetched, fetched,
  session_expired, of_fetcher, after_first, with_refresh,
}

-- The upstream answers with two tokens.
abbrev pub IsRefreshed : TokenReply → Type 0
IsRefreshed tokens =
    (tokens.is_ok ≡ true)
    × (truthy tokens.access_token ≡ true)
    × (truthy tokens.refresh_token ≡ true)

module _ (tokens : TokenReply) (session : SessionData) where
  -- The session with the new tokens.
  abbrev pub renewed : SessionData
  renewed =
      set_session tokens.access_token tokens.refresh_token session.user_id session.email
        session.channel_slug

  try_refresh-cases :
      (IsRefreshed tokens × (try_refresh (λ token. tokens) session ≡ (true, renewed)))
      ⊎ ((¬ IsRefreshed tokens) × (try_refresh (λ token. tokens) session ≡ (false, empty_session)))
  unfolding try_refresh
  try_refresh-cases = elim (Bool-cases tokens.is_ok) [
    | inr bad ↦ inr (λ h. absurd (ground (arith, h.0)), rw bad)
    | inl done ↦ elim (Bool-cases (truthy tokens.access_token)) [
      | inr no_access ↦ inr (λ h. absurd (ground (arith, h.1)), rw (done, no_access))
      | inl has_access ↦ elim (Bool-cases (truthy tokens.refresh_token)) [
        | inr no_refresh ↦
            inr (λ h. absurd (ground (arith, h.2)), rw (done, has_access, no_refresh))
        | inl has_refresh ↦
            inl ((done, has_access, has_refresh), rw (done, has_access, has_refresh))
      ]
    ]
  ]

module _ {A : Type 0} (first second : SessionData → Option (ℕ × A))
    (upstream : Option Text → Option TokenReply) (session : SessionData) where
  -- The ends after a first response of 401, as `with_refresh_cases` says.
  abbrev pub RefreshEnds : Option (Fetched A) × SessionData → Type 0
  RefreshEnds result =
      ((upstream session.refresh_token ≡ none) × (result ≡ (none, session)))
      ⊎ ((tokens : TokenReply) × (upstream session.refresh_token ≡ some tokens)
          × ((IsRefreshed tokens
                × (result ≡ (of_fetcher (second (renewed tokens session)), renewed tokens session)))
              ⊎ ((¬ IsRefreshed tokens) × (result ≡ (some session_expired, empty_session)))))

  after_first-of_401 :
      (body : A) → RefreshEnds (after_first second upstream session (some (401, body)))
  after_first-of_401 body = elim (Option-cases (upstream session.refresh_token)) [
    | inl unreached ↦ inl (unreached, rw unreached)
    | inr (tokens, answered) ↦ elim (try_refresh-cases tokens session) [
      | inl (good, refreshed) ↦ inr (tokens, answered, inl (good, rw (answered, refreshed)))
      | inr (bad, failed) ↦ inr (tokens, answered, inr (bad, rw (answered, failed)))
    ]
  ]

  -- `withRefresh` throws with the first call of the fetcher, and returns its response if that is not
  -- a 401; the session stays. After a 401 it throws if the upstream cannot be reached, and the
  -- session stays. If the upstream answers with two tokens, the session has them and keeps its
  -- user, and `withRefresh` ends as the second call of the fetcher does. If the upstream answers
  -- otherwise, the session is destroyed and the response says so.
  pub with_refresh_cases :
      let result = with_refresh first second upstream session in
      ((first session ≡ none) × (result ≡ (none, session)))
      ⊎ ((status : ℕ) × (body : A) × (first session ≡ some (status, body))
          × (status ≢ 401)
          × (result ≡ (some (fetched status body), session)))
      ⊎ ((body : A) × (first session ≡ some (401, body)) × RefreshEnds result)
  unfolding with_refresh
  with_refresh_cases = of_first (first session) refl
    where
      of_first :
          (o : Option (ℕ × A))
          → first session ≡ o
          → ((o ≡ none) × (after_first second upstream session o ≡ (none, session)))
            ⊎ ((status : ℕ) × (body : A) × (o ≡ some (status, body))
                × (status ≢ 401)
                × (after_first second upstream session o ≡ (some (fetched status body), session)))
            ⊎ ((body : A) × (o ≡ some (401, body))
                × RefreshEnds (after_first second upstream session o))
      of_first none e = inl (refl, refl)
      of_first (some (status, body)) e = elim (Bool-cases (status == 401)) [
        | inr other ↦ inr (inl (status, body, refl, ground arith, rw other))
        | inl expired ↦
            let same : status ≡ 401 = ground arith in
            let at : ◌≡◌ {A = Option (ℕ × A)} (some (status, body)) (some (401, body)) =
              ap (λ n. some (n, body)) same in
            inr (
              inr (
                body,
                at,
                subst (λ o. RefreshEnds (after_first second upstream session o)) (sym at)
                    (after_first-of_401 body),
              ))
      ]

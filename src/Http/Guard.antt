-- ===== src/Http/Guard.antt =====
-- nestjs-project/src/auth/guards/jwt-auth.guard.ts. `jwtService.verifyAsync` is an argument: the
-- payload of a token, `none` where it throws.
use videum_video_platform.Common.{
  ℕ, ◌≡◌, refl, ap, ◌↔◌, ◌++◌, Bool, true, false, [], ◌∷◌, Option, none, some, Text, codes, ◌==◌,
  if◌then◌else◌, Option-cases, inl, inr, arith,
}

pub record JwtPayload : Type 0 where
  pub sub : ℕ
  pub email : Text

-- `unauthorized` is a thrown `UnauthorizedException`; otherwise `request.user` is given.
pub data Activation : Type 0 where
  activated : Option JwtPayload → Activation
  unauthorized : Activation

-- `BEARER_PREFIX`
abbrev pub bearer_prefix : Text
bearer_prefix = codes "Bearer "

-- `text.startsWith(prefix)` and `text.slice(prefix.length)` at once.
unfoldable pub strip_prefix : Text → Text → Option Text
strip_prefix [] t = some t
strip_prefix (c ∷ s) [] = none
strip_prefix (c ∷ s) (d ∷ t) = let rest = strip_prefix s t in if c == d then rest else none

abbrev pub or_anonymous : Bool → Activation
or_anonymous true = activated none
or_anonymous false = unauthorized

abbrev pub after_verify : Bool → Option JwtPayload → Activation
after_verify is_optional none = or_anonymous is_optional
after_verify is_optional (some payload) = activated (some payload)

abbrev pub after_prefix : (Text → Option JwtPayload) → Bool → Option Text → Activation
after_prefix verify is_optional none = or_anonymous is_optional
after_prefix verify is_optional (some token) = after_verify is_optional (verify token)

-- The token of an `Authorization` header.
unfoldable pub bearer_token : Option Text → Option Text
unfolding strip_prefix
bearer_token none = none
bearer_token (some header) = strip_prefix bearer_prefix header

-- `canActivate`
unfoldable pub can_activate : (Text → Option JwtPayload) → Bool → Bool → Option Text → Activation
unfolding bearer_token
can_activate verify is_public is_optional authorization =
    if is_public
    then activated none
    else after_prefix verify is_optional (bearer_token authorization)

strip_prefix_sound : (p s t : Text) → strip_prefix p s ≡ some t → s ≡ p ++ t
unfolding strip_prefix
strip_prefix_sound [] s t e = ground arith
strip_prefix_sound (c ∷ p) [] t e = cc
strip_prefix_sound (c ∷ p) (d ∷ s) t e = ground (arith, strip_prefix_sound p s t)

module _ (verify : Text → Option JwtPayload) where
  -- A route that is neither public nor optional is entered exactly with a header of the form
  -- `Bearer <token>` whose token is verified, and then with the token's payload.
  pub can_activate-protected_iff :
      (authorization : Option Text) (user : Option JwtPayload)
      → (can_activate verify false false authorization ≡ activated user) ↔ (
          (token : Text) × (payload : JwtPayload) × (authorization ≡ some (bearer_prefix ++ token))
          × (verify token ≡ some payload)
          × (user ≡ some payload))
  unfolding can_activate
  can_activate-protected_iff none user = (λ e. cc, λ (token, payload, e, verified, same). cc)
  can_activate-protected_iff (some header) user = (
    λ e. elim (Option-cases (strip_prefix bearer_prefix header)) [
      | inl no_token ↦ absurd (ground arith)
      | inr (token, has_token) ↦ elim (Option-cases (verify token)) [
        | inl bad ↦ absurd (ground arith)
        | inr (payload, verified) ↦ (
          token,
          payload,
          ap some (strip_prefix_sound bearer_prefix header token has_token),
          verified,
          ground arith,
        )
      ]
    ],
    λ (token, payload, e, verified, same).
        (let h : header ≡ bearer_prefix ++ token = ground arith in rw (h, same, verified)),
  )

  -- A route with optional authentication is always entered, with the payload of the token that the
  -- protected route would accept, and without a user otherwise.
  pub can_activate-optional :
      (authorization : Option Text)
      → can_activate verify false true authorization
        ≡ (elim (can_activate verify false false authorization) [
          | activated user ↦ activated user
          | unauthorized ↦ activated none
        ])
  unfolding can_activate
  can_activate-optional none = refl
  can_activate-optional (some header) = elim (Option-cases (strip_prefix bearer_prefix header)) [
    | inl no_token ↦ rw no_token
    | inr (token, has_token) ↦ elim (Option-cases (verify token)) [
      | inl bad ↦ rw (has_token, bad)
      | inr (payload, verified) ↦ rw (has_token, verified)
    ]
  ]

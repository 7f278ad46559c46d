-- ===== src/Auth/Duration/Format.antt =====
-- The durations that `jwtExpirationToMs` of nestjs-project/src/auth/auth.service.ts reads.
use native.Mathlib.Nat.{mul_assoc, add-mul, pow-suc}
use videum_video_platform.Common.{
  ◌+◌, ◌-◌, ◌^◌, ◌≤◌, ◌≢◌, leb, sym, length, ℕ, ◌*◌, ◌≡◌, refl, ap, ◌∙◌, true, false, [], ◌∷◌, ◌++◌,
  Text, All, arith, Bool-cases, inl, inr,
}
use videum_video_platform.Auth.Duration.{
  is_digit, is_unit, at_unit, match_expiration, parse_int, unit_ms, to_double, expiration_value,
  jwt_expiration_to_ms,
}

append-cons : (s : Text) (c : ℕ) (t : Text) → (s ++ c ∷ []) ++ t ≡ s ++ c ∷ t
append-cons [] c t = refl
append-cons (d ∷ s) c t = ap (λ x. d ∷ x) (append-cons s c t)

pub append-nil : (s : Text) → s ++ [] ≡ s
append-nil [] = refl
append-nil (c ∷ s) = ap (λ x. c ∷ x) (append-nil s)

-- The digits go to the first group.
match_expiration-digits :
    (acc ds : Text) (u : ℕ)
    → All (λ c. is_digit c ≡ true) ds
    → is_digit u ≡ false
    → match_expiration acc (ds ++ u ∷ []) ≡ at_unit (acc ++ ds) (u ∷ [])
unfolding match_expiration
match_expiration-digits acc [] u h other = rw (other, append-nil acc)
match_expiration-digits acc (c ∷ ds) u h other =
    rw h.0 (match_expiration-digits (acc ++ c ∷ []) ds u h.1 other ∙ rw (append-cons acc c ds))

-- The number that digits write: each stands for a multiple of a power of ten.
unfoldable pub decimal_value : Text → ℕ
decimal_value [] = 0
decimal_value (d ∷ ds) = (d - b'0') * 10 ^ length ds + decimal_value ds

shift : (n x p v : ℕ) → (n * 10 + x) * p + v ≡ n * (p * 10) + (x * p + v)
shift n x p v = omega (arith, add-mul (n * 10) x p, mul_assoc n 10 p)

parse_int-decimal_value :
    (n : ℕ) (ds : Text) → parse_int n ds ≡ n * 10 ^ length ds + decimal_value ds
unfolding parse_int decimal_value
parse_int-decimal_value n [] = omega arith
parse_int-decimal_value n (d ∷ ds) =
    parse_int-decimal_value (n * 10 + (d - b'0')) ds
    ∙ shift n (d - b'0') (10 ^ length ds) (decimal_value ds)
    ∙ ap (λ p. n * p + ((d - b'0') * 10 ^ length ds + decimal_value ds))
        (sym (pow-suc 10 (length ds)))

unit_ms-of_no_unit : (u : ℕ) → is_unit u ≡ false → unit_ms u ≡ 0
unfolding is_unit unit_ms
unit_ms-of_no_unit u h = ground arith

to_double-of_small : (n : ℕ) → n ≤ 2 ^ 53 → to_double n ≡ n
unfolding to_double
to_double-of_small n small = let yes : leb n (2 ^ 53) ≡ true = ground arith in rw (to_double, yes)

-- The value is taken of doubles that are exact.
value-exact :
    (ds : Text) (u : ℕ)
    → decimal_value ds ≤ 2 ^ 53
    → decimal_value ds * unit_ms u ≤ 2 ^ 53
    → to_double (to_double (parse_int 0 ds) * unit_ms u) ≡ decimal_value ds * unit_ms u
value-exact ds u few small =
    ap (λ n. to_double (to_double n * unit_ms u))
      (parse_int-decimal_value 0 ds ∙ zero_add (10 ^ length ds) (decimal_value ds))
    ∙ ap (λ n. to_double (n * unit_ms u)) (to_double-of_small (decimal_value ds) few)
    ∙ to_double-of_small (decimal_value ds * unit_ms u) small
  where
    zero_add : (p v : ℕ) → 0 * p + v ≡ v
    zero_add p v = omega arith

at_unit-value :
    (ds : Text) (u : ℕ)
    → decimal_value ds ≤ 2 ^ 53
    → decimal_value ds * unit_ms u ≤ 2 ^ 53
    → expiration_value (at_unit ds (u ∷ [])) ≡ decimal_value ds * unit_ms u
unfolding at_unit expiration_value decimal_value
at_unit-value [] u few small = omega arith
at_unit-value (d ∷ ds) u few small = elim (Bool-cases (is_unit u)) [
  | inl unit ↦ rw unit (value-exact (d ∷ ds) u few small)
  | inr no_unit ↦ rw no_unit (rw (unit_ms-of_no_unit u no_unit) (omega arith))
]

of_format :
    (ds : Text) (u : ℕ)
    → All (λ c. is_digit c ≡ true) ds
    → is_digit u ≡ false
    → decimal_value ds ≤ 2 ^ 53
    → decimal_value ds * unit_ms u ≤ 2 ^ 53
    → jwt_expiration_to_ms (ds ++ u ∷ []) ≡ decimal_value ds * unit_ms u
unfolding jwt_expiration_to_ms
of_format ds u digits other few small =
    ap expiration_value (match_expiration-digits [] ds u digits other)
    ∙ at_unit-value ds u few small

-- Digits and one further letter. The digits write a number in decimal; with the letter s, m, h or d the
-- duration is as many seconds, minutes, hours or days in milliseconds, and with any other letter,
-- `u`, it is 0. The number is such that the milliseconds of so many days are at most 2 ^ 53, up to
-- which doubles are exact.
pub jwt_expiration_to_ms-format :
    (ds : Text) (u : ℕ)
    → All (λ c. is_digit c ≡ true) ds
    → decimal_value ds * (24 * 60 * 60 * 1000) ≤ 2 ^ 53
    → is_digit u ≡ false
    → u ≢ b's'
    → u ≢ b'm'
    → u ≢ b'h'
    → u ≢ b'd'
    → (jwt_expiration_to_ms (ds ++ b's' ∷ []) ≡ decimal_value ds * 1000)
      × (jwt_expiration_to_ms (ds ++ b'm' ∷ []) ≡ decimal_value ds * (60 * 1000))
      × (jwt_expiration_to_ms (ds ++ b'h' ∷ []) ≡ decimal_value ds * (60 * 60 * 1000))
      × (jwt_expiration_to_ms (ds ++ b'd' ∷ []) ≡ decimal_value ds * (24 * 60 * 60 * 1000))
      × (jwt_expiration_to_ms (ds ++ u ∷ []) ≡ 0)
unfolding is_digit unit_ms is_unit
jwt_expiration_to_ms-format ds u digits small other no_s no_m no_h no_d =
    let none_of : is_unit u ≡ false = ground arith in
    let no_ms = unit_ms-of_no_unit u none_of in
    (
      of_format ds b's' digits refl (omega arith) (omega arith),
      of_format ds b'm' digits refl (omega arith) (omega arith),
      of_format ds b'h' digits refl (omega arith) (omega arith),
      of_format ds b'd' digits refl (omega arith) (omega arith),
      of_format ds u digits other (omega arith) (rw no_ms (omega arith)) ∙ rw no_ms (omega arith),
    )

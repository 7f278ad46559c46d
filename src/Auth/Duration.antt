-- ===== src/Auth/Duration.antt =====
-- `jwtExpirationToMs` of nestjs-project/src/auth/auth.service.ts. The numbers are the doubles of
-- JavaScript, up to the largest one; beyond it, at 2 ^ 1024, the code has `Infinity`.
pub mod Format
use videum_video_platform.Common.{
  ℕ, zero, suc, ◌+◌, ◌-◌, ◌*◌, ◌/◌, ◌%◌, ◌^◌, true, false, ltb, Bool, ◌&&◌, ◌||◌, [], ◌∷◌, ◌++◌,
  Option, none, some, Text, leb, ◌==◌, if◌then◌else◌,
}

unfoldable pub is_digit : ℕ → Bool
is_digit c = leb b'0' c && leb c b'9'

unfoldable pub is_unit : ℕ → Bool
is_unit c = c == b's' || c == b'm' || c == b'h' || c == b'd'

-- What stands after the digits: one unit and the end of the text.
unfoldable pub match_unit : Text → Text → Option (Text × ℕ)
unfolding is_unit
match_unit digits [] = none
match_unit digits (c ∷ []) = if is_unit c then some (digits, c) else none
match_unit digits (c ∷ _ ∷ _) = none

-- Both groups want a character at least.
unfoldable pub at_unit : Text → Text → Option (Text × ℕ)
unfolding match_unit
at_unit [] s = none
at_unit (d ∷ ds) s = match_unit (d ∷ ds) s

-- `exp.match(/^(\d+)([smhd])$/)`: the two groups. The first argument is the digits read so far.
unfoldable pub match_expiration : Text → Text → Option (Text × ℕ)
unfolding is_digit at_unit
match_expiration digits [] = none
match_expiration digits (c ∷ s) =
    let longer = match_expiration (digits ++ c ∷ []) s in
    if is_digit c then longer else at_unit digits (c ∷ s)

-- `parseInt(digits, 10)`, on digits alone.
unfoldable pub parse_int : ℕ → Text → ℕ
parse_int acc [] = acc
parse_int acc (c ∷ s) = parse_int (acc * 10 + (c - b'0')) s

-- The multiple of a unit nearest to a number; of two that are as near, the even one.
abbrev pub nearest : ℕ → ℕ → ℕ
nearest unit n =
    let q = n / unit in
    let r = n % unit in
    if ltb (2 * r) unit || 2 * r == unit && q % 2 == 0 then q * unit else (q + 1) * unit

-- A number of at most 2 ^ 53 units is rounded to units, a larger one to the next unit, the double.
unfoldable pub round_at : ℕ → ℕ → ℕ → ℕ
round_at zero unit n = nearest unit n
round_at (suc fuel) unit n = elim (leb n (2 ^ 53 * unit)) [
  | true ↦ nearest unit n
  | false ↦ round_at fuel (2 * unit) n
]

-- The double nearest to a number. Of its 1024 bits 53 are kept, so 971 doublings of the unit are enough.
unfoldable pub to_double : ℕ → ℕ
unfolding round_at
to_double n = elim (leb n (2 ^ 53)) [ true ↦ n | false ↦ round_at 970 2 n ]

-- `units[unit] ?? 0`
unfoldable pub unit_ms : ℕ → ℕ
unit_ms c =
    if c == b's'
    then 1000
    else if c == b'm'
    then 60000
    else if c == b'h'
    then 3600000
    else if c == b'd'
    then 86400000
    else 0

unfoldable pub expiration_value : Option (Text × ℕ) → ℕ
unfolding to_double
expiration_value none = 0
expiration_value (some (digits, unit)) = to_double (to_double (parse_int 0 digits) * unit_ms unit)

unfoldable pub jwt_expiration_to_ms : Text → ℕ
unfolding match_expiration expiration_value
jwt_expiration_to_ms exp = expiration_value (match_expiration [] exp)

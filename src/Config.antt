-- ===== src/Config.antt =====
-- The settings of nestjs-project/src/config, read from the environment of the process.
pub mod Settings
pub mod Validation
pub mod Filled
pub mod Integers
use videum_video_platform.Common.{
  ℕ, ◌+◌, ◌-◌, ◌*◌, ◌≡◌, Bool, true, false, ◌&&◌, ◌||◌, [], ◌∷◌, Option, none, some, Text, codes,
  ◌==◌, leb, if◌then◌else◌,
}
use videum_video_platform.Auth.Duration.{is_digit}

-- `process.env`: a variable that is not set is undefined.
abbrev pub Environment : Type 0
Environment = Text → Option Text

-- `value || fallback`: undefined and the empty text are falsy.
abbrev pub or_else : Option Text → Text → Text
or_else none fallback = fallback
or_else (some []) fallback = fallback
or_else (some (c ∷ s)) fallback = c ∷ s

-- `value ?? fallback`
abbrev pub if_undefined : Option Text → Text → Text
if_undefined none fallback = fallback
if_undefined (some s) fallback = s

-- What `parseInt(text, 10)` returns; the number is exact, a double is so up to 2 ^ 53.
pub data ParsedInt : Type 0 where
  nan : ParsedInt
  plus minus : ℕ → ParsedInt

abbrev pub with_sign : Bool → Option ℕ → ParsedInt
with_sign negative none = nan
with_sign false (some n) = plus n
with_sign true (some n) = minus n

-- The digits at the start of a text. The first argument is what those before are worth.
unfoldable pub leading_digits : Option ℕ → Text → Option ℕ
unfolding is_digit
leading_digits acc [] = acc
leading_digits none (c ∷ s) =
    let rest = leading_digits (some (c - b'0')) s in if is_digit c then rest else none
leading_digits (some n) (c ∷ s) =
    let rest = leading_digits (some (n * 10 + (c - b'0'))) s in if is_digit c then rest else some n

abbrev pub signed_digits : Text → ParsedInt
signed_digits [] = nan
signed_digits (c ∷ s) =
    if c == b'-'
    then with_sign true (leading_digits none s)
    else if c == b'+'
    then with_sign false (leading_digits none s)
    else with_sign false (leading_digits none (c ∷ s))

-- The white space and the line ends of JavaScript.
abbrev pub is_blank : ℕ → Bool
is_blank c =
    leb 9 c && leb c 13
    || c == 32
    || c == 160
    || c == 5760
    || leb 8192 c && leb c 8202
    || c == 8232
    || c == 8233
    || c == 8239
    || c == 8287
    || c == 12288
    || c == 65279

unfoldable pub parse_int_10 : Text → ParsedInt
unfolding leading_digits
parse_int_10 [] = nan
parse_int_10 (c ∷ s) =
    let rest = parse_int_10 s in if is_blank c then rest else signed_digits (c ∷ s)

-- `parseInt(process.env.X || fallback, 10)`
unfoldable pub int_setting : Option Text → Text → ParsedInt
unfolding parse_int_10
int_setting value fallback = parse_int_10 (or_else value fallback)

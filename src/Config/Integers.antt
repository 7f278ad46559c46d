-- ===== src/Config/Integers.antt =====
-- `parseInt(text, 10)` of the settings in nestjs-project/src/config: it stops at the first unit that is
-- no digit.
use videum_video_platform.Common.{
  ℕ, ◌+◌, ◌-◌, ◌*◌, ◌≡◌, refl, ap, subst, Bool, true, false, not, [], ◌∷◌, ◌++◌, some, Text, All,
  arith, ◌==◌,
}
use videum_video_platform.Auth.Duration.{is_digit, parse_int}
use videum_video_platform.Auth.Duration.Format.{append-nil}
use videum_video_platform.Config.{plus, leading_digits, is_blank, parse_int_10}

-- A text that does not start with a digit.
abbrev pub stops : Text → Bool
stops [] = true
stops (c ∷ s) = not (is_digit c)

leading_digits-of_digits :
    (n : ℕ) (ds rest : Text)
    → All (λ c. is_digit c ≡ true) ds
    → stops rest ≡ true
    → leading_digits (some n) (ds ++ rest) ≡ some (parse_int n ds)
unfolding leading_digits parse_int
leading_digits-of_digits n [] [] digits stop = refl
leading_digits-of_digits n [] (c ∷ rest) digits stop = ground arith
leading_digits-of_digits n (d ∷ ds) rest digits stop =
    rw digits.0 (leading_digits-of_digits (n * 10 + (d - b'0')) ds rest digits.1 stop)

is_blank-of_digit : (c : ℕ) → is_digit c ≡ true → is_blank c ≡ false
unfolding is_digit
is_blank-of_digit c digit = ground arith

no_sign-of_digit : (c : ℕ) → is_digit c ≡ true → (c == b'-' ≡ false) × (c == b'+' ≡ false)
unfolding is_digit
no_sign-of_digit c digit = (ground arith, ground arith)

-- A text that starts with digits is read as the number that the digits before the first other unit
-- write, whatever follows: `1e8` is 1.
pub parse_int_10-leading :
    (d : ℕ) (ds rest : Text)
    → All (λ c. is_digit c ≡ true) (d ∷ ds)
    → stops rest ≡ true
    → parse_int_10 (d ∷ ds ++ rest) ≡ plus (parse_int 0 (d ∷ ds))
unfolding parse_int_10 leading_digits parse_int
parse_int_10-leading d ds rest digits stop =
    let (minus_no, plus_no) = no_sign-of_digit d digits.0 in
    rw
      (
        is_blank-of_digit d digits.0,
        minus_no,
        plus_no,
        digits.0,
        leading_digits-of_digits (d - b'0') ds rest digits.1 stop,
      )
      (ap (λ n. plus (parse_int n ds)) zero_add)
  where
    zero_add : d - b'0' ≡ 0 * 10 + (d - b'0')
    zero_add = omega arith

pub parse_int_10-of_digits :
    (d : ℕ) (ds : Text)
    → All (λ c. is_digit c ≡ true) (d ∷ ds)
    → parse_int_10 (d ∷ ds) ≡ plus (parse_int 0 (d ∷ ds))
parse_int_10-of_digits d ds digits =
    subst (λ s. parse_int_10 (d ∷ s) ≡ plus (parse_int 0 (d ∷ ds))) (append-nil ds)
      (parse_int_10-leading d ds [] digits refl)

-- ===== src/Frontend/Strength.antt =====
-- next-frontend/components/auth/password-strength-meter.tsx, without the markup.
use videum_video_platform.Common.{
  ℕ, ◌+◌, ◌≤◌, ◌≡◌, refl, Bool, false, not, ◌&&◌, ◌||◌, [], ◌∷◌, ◌++◌, Text, length, length-append,
  ltb, leb, ◌==◌, if◌then◌else◌, Bool-cases, inl, inr, arith,
}

pub data StrengthLevel : Type 0 where
  empty weak fair strong very_strong : StrengthLevel

abbrev pub is_lower : ℕ → Bool
is_lower c = leb b'a' c && leb c b'z'

abbrev pub is_upper : ℕ → Bool
is_upper c = leb b'A' c && leb c b'Z'

abbrev pub is_digit : ℕ → Bool
is_digit c = leb b'0' c && leb c b'9'

abbrev pub is_other : ℕ → Bool
is_other c = not (is_lower c) && not (is_upper c) && not (is_digit c)

-- `re.test(password)` for a class of characters. The complemented class meets a character outside the
-- basic plane at its first unit, as the expression has no flag `u`.
unfoldable pub test : (ℕ → Bool) → Text → Bool
test p [] = false
test p (c ∷ s) = p c || test p s

abbrev pub one_if : Bool → ℕ
one_if b = if b then 1 else 0

unfoldable pub passed_checks : Text → ℕ
unfolding test
passed_checks password =
    one_if (test is_lower password)
    + one_if (test is_upper password)
    + one_if (test is_digit password)
    + one_if (test is_other password)

abbrev pub level_of_checks : ℕ → StrengthLevel
level_of_checks passed =
    if leb passed 1
    then weak
    else if passed == 2
    then fair
    else if passed == 3
    then strong
    else very_strong

-- `getStrengthLevel`
unfoldable pub get_strength_level : Text → StrengthLevel
unfolding passed_checks
get_strength_level [] = empty
get_strength_level (c ∷ s) =
    if ltb (length (c ∷ s)) 8 then weak else level_of_checks (passed_checks (c ∷ s))

-- `SEGMENTS[level].filled`
abbrev pub filled : StrengthLevel → ℕ
filled empty = 0
filled weak = 1
filled fair = 2
filled strong = 3
filled very_strong = 4

test-append : (p : ℕ → Bool) (s t : Text) → test p (s ++ t) ≡ (test p s || test p t)
unfolding test
test-append p [] t = refl
test-append p (c ∷ s) t = ground (arith, test-append p s t)

passed_checks-append_le : (s t : Text) → passed_checks s ≤ passed_checks (s ++ t)
unfolding passed_checks
passed_checks-append_le s t =
    rw
      (
        test-append is_lower s t,
        test-append is_upper s t,
        test-append is_digit s t,
        test-append is_other s t,
      )
      (ground arith)

filled-level_of_checks_le :
    (m n : ℕ) → m ≤ n → filled (level_of_checks m) ≤ filled (level_of_checks n)
filled-level_of_checks_le m n h = ground arith

filled-level_of_checks_least : (n : ℕ) → 1 ≤ filled (level_of_checks n)
filled-level_of_checks_least n = ground arith

-- Typing on never lowers the meter: a longer password fills at least as many segments as the part of
-- it that was typed before.
pub filled-append_le :
    (s t : Text) → filled (get_strength_level s) ≤ filled (get_strength_level (s ++ t))
unfolding get_strength_level
filled-append_le [] t = omega arith
filled-append_le (c ∷ s) t =
    let more = filled-level_of_checks_le _ _ (passed_checks-append_le (c ∷ s) t) in
    let least = filled-level_of_checks_least (passed_checks (c ∷ s ++ t)) in
    let longer = length-append s t in
    elim (Bool-cases (ltb (length (c ∷ s)) 8)) [
      | inl short ↦ elim (Bool-cases (ltb (length (c ∷ s ++ t)) 8)) [
        | inl still ↦ rw (short, still) (omega arith)
        | inr now_long ↦ rw (short, now_long) least
      ]
      | inr long ↦
          let long' : ltb (length (c ∷ s ++ t)) 8 ≡ false = ground arith in rw (long, long') more
    ]

-- ===== src/Frontend/Signup/Schema.antt =====
-- The schema of next-frontend/components/auth/signup-form.tsx against the strength meter beside it
-- and against the upstream's validation (nestjs-project/src/auth/dto/register.dto.ts).
use videum_video_platform.Common.{
  suc, ap, ◌↔◌, count_chars, char_count, has_variation_selector, is_high_surrogate, ℕ, ◌≤◌, ◌≡◌,
  refl, Bool, true, false, ◌||◌, [], ◌∷◌, Text, length, ltb, Bool-cases, inl, inr, arith,
}
use videum_video_platform.Http.Bodies.{Validator, CountsCharacters, is_valid_register}
use videum_video_platform.Frontend.Strength.{
  test, is_lower, is_upper, is_digit, passed_checks, level_of_checks, get_strength_level, filled,
}
use videum_video_platform.Frontend.Signup.{SignupValues, is_letter, signup_schema, has_errors}

test-is_letter : (s : Text) → test is_letter s ≡ (test is_lower s || test is_upper s)
unfolding test
test-is_letter [] = refl
test-is_letter (c ∷ s) = ground (arith, test-is_letter s)

filled-level_of_checks_ge : (n : ℕ) → 2 ≤ n → 2 ≤ filled (level_of_checks n)
filled-level_of_checks_ge n h = ground arith

passed_checks_ge :
    (s : Text) → test is_letter s ≡ true → test is_digit s ≡ true → 2 ≤ passed_checks s
unfolding passed_checks
passed_checks_ge s letter digit =
    let either = test-is_letter s in
    elim (Bool-cases (test is_lower s)) [
      | inl lower ↦ rw (lower, digit) (omega arith)
      | inr no_lower ↦
          let upper : test is_upper s ≡ true = ground arith in rw (upper, digit) (omega arith)
    ]

get_strength_level-filled :
    (s : Text)
    → 8 ≤ length s
    → test is_letter s ≡ true
    → test is_digit s ≡ true
    → 2 ≤ filled (get_strength_level s)
unfolding get_strength_level
get_strength_level-filled [] long letter digit = absurd (omega arith)
get_strength_level-filled (c ∷ s) long letter digit =
    let not_short : ltb (length (c ∷ s)) 8 ≡ false = ground arith in
    rw not_short
      (filled-level_of_checks_ge (passed_checks (c ∷ s)) (passed_checks_ge (c ∷ s) letter digit))

-- A password that the form accepts.
pub accepted-password :
    (is_zod_email : Text → Bool) (v : SignupValues)
    → has_errors (signup_schema is_zod_email v) ≡ false
    → (8 ≤ length v.password)
      × (test is_letter v.password ≡ true)
      × (test is_digit v.password ≡ true)
unfolding signup_schema
accepted-password is_zod_email v accepted = (ground arith, ground arith, ground arith)

-- A password that the form accepts fills at least two segments of the strength meter.
pub filled-accepted_ge :
    (is_zod_email : Text → Bool) (v : SignupValues)
    → has_errors (signup_schema is_zod_email v) ≡ false
    → 2 ≤ filled (get_strength_level v.password)
filled-accepted_ge is_zod_email v accepted =
    let (long, letter, digit) = accepted-password is_zod_email v accepted in
    get_strength_level-filled v.password long letter digit

count_chars-basic : (s : Text) → test is_high_surrogate s ≡ false → count_chars false s ≡ length s
unfolding count_chars test
count_chars-basic [] basic = refl
count_chars-basic (c ∷ s) basic =
    let here : is_high_surrogate c ≡ false = ground arith in
    let rest : test is_high_surrogate s ≡ false = ground arith in
    rw here (ap suc (count_chars-basic s rest))

-- Of the values that the form accepts, those whose password has no character outside the basic plane
-- and no variation selector pass the upstream's validation exactly if the password has at most 128
-- units, which the form does not ask for. The upstream's validation is taken to accept the email and
-- to count the characters of texts without variation selectors.
pub accepted-is_valid_register_iff :
    (is_zod_email : Text → Bool) (validator : Validator) (v : SignupValues)
    → CountsCharacters validator
    → has_errors (signup_schema is_zod_email v) ≡ false
    → validator.is_email v.email ≡ true
    → test is_high_surrogate v.password ≡ false
    → has_variation_selector v.password ≡ false
    → (is_valid_register validator v.email v.password ≡ true) ↔ (length v.password ≤ 128)
unfolding is_valid_register char_count
accepted-is_valid_register_iff is_zod_email validator v counts accepted known basic plain =
    let (long, letter, digit) = accepted-password is_zod_email v accepted in
    let counted = counts v.password plain in
    let chars = count_chars-basic v.password basic in (λ valid. ground arith, λ short. ground arith)

-- ===== src/Channels/Bounds.antt =====
-- Nicknames fit their column and hold only the permitted characters.
use videum_video_platform.Common.{
  ℕ, ◌+◌, ◌≤◌, ◌<◌, ◌%◌, ◌/◌, ◌≡◌, refl, true, List, [], ◌∷◌, ◌++◌, Text, codes, length, take,
  length-append, length-take, take-of_le, All, All-append, All-take, arith,
}
use videum_video_platform.Channels.Nickname.{
  hex_digit, to_hex, random_hex, is_nickname_unit, keep_nickname_units, or_user, sanitize_nickname,
  append_random_suffix,
}

-- The text matches `^[a-z0-9_]*$`.
abbrev pub IsNickname : Text → Type 0
IsNickname s = All (λ c. is_nickname_unit c ≡ true) s

hex_digit-unit : (d : ℕ) → d < 16 → is_nickname_unit (hex_digit d) ≡ true
unfolding hex_digit is_nickname_unit
hex_digit-unit d h = ground arith

to_hex-IsNickname : (bytes : List ℕ) → IsNickname (to_hex bytes)
unfolding to_hex
to_hex-IsNickname [] = tt
to_hex-IsNickname (b ∷ bytes) = (
  hex_digit-unit (b / 16 % 16) (omega arith),
  (hex_digit-unit (b % 16) (omega arith), to_hex-IsNickname bytes),
)

length-to_hex : (bytes : List ℕ) → length (to_hex bytes) ≡ length bytes + length bytes
unfolding to_hex
length-to_hex [] = omega arith
length-to_hex (b ∷ bytes) = omega (arith, length-to_hex bytes)

pub random_hex-IsNickname : (n : ℕ) (bytes : List ℕ) → IsNickname (random_hex n bytes)
unfolding random_hex
random_hex-IsNickname n bytes = All-take _ n (to_hex bytes) (to_hex-IsNickname bytes)

pub length-random_hex : (n : ℕ) (bytes : List ℕ) → length (random_hex n bytes) ≤ n
unfolding random_hex
length-random_hex n bytes = omega (arith, length-take n (to_hex bytes))

keep-IsNickname : (s : Text) → IsNickname (keep_nickname_units s)
unfolding keep_nickname_units
keep-IsNickname [] = tt
keep-IsNickname (c ∷ s) = ground (arith, keep-IsNickname s)

keep-of_IsNickname : (s : Text) → IsNickname s → keep_nickname_units s ≡ s
unfolding keep_nickname_units
keep-of_IsNickname [] h = refl
keep-of_IsNickname (c ∷ s) h = ground (arith, keep-of_IsNickname s h.1)

or_user_bounds :
    (bytes : List ℕ) (s : Text)
    → length s ≤ 46
    → IsNickname s
    → (0 < length (or_user bytes s))
      × (length (or_user bytes s) ≤ 46)
      × IsNickname (or_user bytes s)
unfolding or_user is_nickname_unit
or_user_bounds bytes [] h all = (
  omega arith,
  omega (arith, length-random_hex 8 bytes),
  (refl, (refl, (refl, (refl, (refl, random_hex-IsNickname 8 bytes))))),
)
or_user_bounds bytes (c ∷ s) h all = (omega arith, h, all)

-- Whatever the prefix, the lower-casing and the random bytes, a sanitized nickname is not empty,
-- is at most 46 units long and consists of `a`-`z`, `0`-`9` and `_`.
pub sanitize_nickname_bounds :
    (to_lower_case : Text → Text) (bytes : List ℕ) (email_prefix : Text)
    → let nickname = sanitize_nickname to_lower_case bytes email_prefix in
      (0 < length nickname) × (length nickname ≤ 46) × IsNickname nickname
unfolding sanitize_nickname
sanitize_nickname_bounds to_lower_case bytes email_prefix =
    let kept = keep_nickname_units (to_lower_case email_prefix) in
    or_user_bounds bytes (take 46 kept) (omega (arith, length-take 46 kept))
      (All-take _ 46 kept (keep-IsNickname (to_lower_case email_prefix)))

-- A nickname with a random suffix fits the column of 50 units and keeps the permitted characters,
-- and it differs from its base: it is at least one unit longer than the part of the base it keeps.
pub append_random_suffix_bounds :
    (bytes : List ℕ) (base : Text)
    → IsNickname base
    → let nickname = append_random_suffix bytes base in
      (length nickname ≤ 50) × IsNickname nickname × (length (take 46 base) < length nickname)
unfolding append_random_suffix is_nickname_unit
append_random_suffix_bounds bytes base h = (
  omega (
    arith,
    length-append (take 46 base) (codes "_" ++ random_hex 3 bytes),
    length-take 46 base,
    length-random_hex 3 bytes,
  ),
  All-append _ (take 46 base) (codes "_" ++ random_hex 3 bytes) (All-take _ 46 base h)
      (refl, random_hex-IsNickname 3 bytes),
  omega (arith, length-append (take 46 base) (codes "_" ++ random_hex 3 bytes)),
)

-- A prefix that already is a nickname of 1 to 46 units, and that lower-casing leaves alone, is
-- kept as it is.
pub sanitize_nickname-of_IsNickname :
    (to_lower_case : Text → Text) (bytes : List ℕ) (c : ℕ) (s : Text)
    → IsNickname (c ∷ s)
    → length (c ∷ s) ≤ 46
    → to_lower_case (c ∷ s) ≡ c ∷ s
    → sanitize_nickname to_lower_case bytes (c ∷ s) ≡ c ∷ s
unfolding sanitize_nickname or_user
sanitize_nickname-of_IsNickname to_lower_case bytes c s all short lower =
    rw (lower, keep-of_IsNickname (c ∷ s) all, take-of_le 46 (c ∷ s) short)

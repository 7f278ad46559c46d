-- ===== src/Channels/Nickname.antt =====
-- nestjs-project/src/channels/nickname.util.ts. `toLowerCase` and the random bytes are arguments.
use videum_video_platform.Common.{
  ℕ, ◌+◌, ◌/◌, ◌%◌, ◌-◌, Bool, ◌&&◌, ◌||◌, List, [], ◌∷◌, ◌++◌, Text, codes, leb, ltb, ◌==◌,
  if◌then◌else◌, take,
}

-- `MAX_BASE_LENGTH`
abbrev pub max_base_length : ℕ
max_base_length = 46

-- One digit of `toString('hex')`.
unfoldable pub hex_digit : ℕ → ℕ
hex_digit d = if ltb d 10 then b'0' + d else b'a' + (d - 10)

-- `Buffer.toString('hex')`: two digits for each byte, the high one first.
unfoldable pub to_hex : List ℕ → Text
unfolding hex_digit
to_hex [] = []
to_hex (b ∷ bytes) = hex_digit (b / 16 % 16) ∷ hex_digit (b % 16) ∷ to_hex bytes

-- `randomHex(length)`; `bytes` is what `randomBytes(Math.ceil(length / 2))` returns.
unfoldable pub random_hex : ℕ → List ℕ → Text
unfolding to_hex
random_hex n bytes = take n (to_hex bytes)

-- The class `[a-z0-9_]`.
unfoldable pub is_nickname_unit : ℕ → Bool
is_nickname_unit c = leb b'a' c && leb c b'z' || leb b'0' c && leb c b'9' || c == b'_'

-- `.replace(/[^a-z0-9_]/g, '')`
unfoldable pub keep_nickname_units : Text → Text
unfolding is_nickname_unit
keep_nickname_units [] = []
keep_nickname_units (c ∷ s) =
    if is_nickname_unit c then c ∷ keep_nickname_units s else keep_nickname_units s

-- `'user_' + randomHex(8)` where nothing is left of the prefix.
unfoldable pub or_user : List ℕ → Text → Text
unfolding random_hex
or_user bytes [] = codes "user_" ++ random_hex 8 bytes
or_user bytes (c ∷ s) = c ∷ s

-- `sanitizeNickname`
unfoldable pub sanitize_nickname : (Text → Text) → List ℕ → Text → Text
unfolding keep_nickname_units or_user
sanitize_nickname to_lower_case bytes email_prefix =
    or_user bytes (take max_base_length (keep_nickname_units (to_lower_case email_prefix)))

-- `appendRandomSuffix`
unfoldable pub append_random_suffix : List ℕ → Text → Text
unfolding random_hex
append_random_suffix bytes nickname =
    take max_base_length nickname ++ (codes "_" ++ random_hex 3 bytes)

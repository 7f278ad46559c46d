-- ===== src/Videos/Columns.antt =====
-- The transformer of the column size_bytes of nestjs-project/src/videos/entities/video.entity.ts. How the
-- database driver writes a `bigint` is an argument.
use videum_video_platform.Common.{ℕ, ◌≡◌, ap, ◌∙◌, true, [], ◌∷◌, Option, none, some, Text, All}
use videum_video_platform.Auth.Duration.{is_digit, parse_int}
use videum_video_platform.Config.{ParsedInt, plus, parse_int_10}
use videum_video_platform.Config.Integers.{parse_int_10-of_digits}

abbrev pub size_bytes_to : ℕ → ℕ
size_bytes_to value = value

unfoldable pub size_bytes_from : Option Text → Option ParsedInt
size_bytes_from none = none
size_bytes_from (some value) = some (parse_int_10 value)

-- A text of one digit at least, which writes the number.
abbrev pub IsDecimal : Text → ℕ → Type 0
IsDecimal [] n = ⊥
IsDecimal (d ∷ ds) n = All (λ c. is_digit c ≡ true) (d ∷ ds) × (parse_int 0 (d ∷ ds) ≡ n)

-- A size comes back from the column as it was stored, where the driver writes numbers in decimal.
pub size_bytes_from-size_bytes_to :
    (write : ℕ → Text)
    → ((n : ℕ) → IsDecimal (write n) n)
    → (n : ℕ) → size_bytes_from (some (write (size_bytes_to n))) ≡ some (plus n)
unfolding size_bytes_from
size_bytes_from-size_bytes_to write decimal n = ap some (read (write n) (decimal n))
  where
    read : (text : Text) → IsDecimal text n → parse_int_10 text ≡ plus n
    read [] h = absurd h
    read (d ∷ ds) h = parse_int_10-of_digits d ds h.0 ∙ ap plus h.1

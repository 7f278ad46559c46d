-- ===== src/Common/Texts.antt =====
-- Texts as lists of UTF-16 code units, the units by which JavaScript strings are indexed.
use Prim.Native.Nat.{ℕ, suc}
use Prim.Native.Char.{code}
use Prim.Native.String.{String}
use mathlib.Core.Path.{◌≡◌, refl}
use mathlib.Core.Logic.{◌↔◌}
use mathlib.Core.Bool.{Bool, true, false, ◌&&◌, ◌||◌}
use mathlib.Core.List.{List, [], ◌∷◌}
use native.Mathlib.Omega.{arith}
use videum_video_platform.Common.Tests.{◌==◌, leb, if◌then◌else◌}

abbrev pub Text : Type 0
Text = List ℕ

-- The code units of a literal, all of whose characters lie in the basic plane.
abbrev pub codes : String → Text
codes String.[] = []
codes (String.◌∷◌ c s) = code c ∷ codes s

-- `a === b` on strings.
unfoldable pub text_eq : Text → Text → Bool
text_eq [] [] = true
text_eq [] (_ ∷ _) = false
text_eq (_ ∷ _) [] = false
text_eq (a ∷ s) (b ∷ t) = a == b && text_eq s t

text_eq_sound : (s t : Text) → text_eq s t ≡ true → s ≡ t
unfolding text_eq
text_eq_sound [] [] h = refl
text_eq_sound [] (b ∷ t) h = cc
text_eq_sound (a ∷ s) [] h = cc
text_eq_sound (a ∷ s) (b ∷ t) h = ground (arith, text_eq_sound s t)

pub text_eq_refl : (s : Text) → text_eq s s ≡ true
unfolding text_eq
text_eq_refl [] = refl
text_eq_refl (a ∷ s) = ground (arith, text_eq_refl s)

pub text_eq_iff : (s t : Text) → (text_eq s t ≡ true) ↔ (s ≡ t)
text_eq_iff s t = (text_eq_sound s t, λ e. subst_eq s t e)
  where
    subst_eq : (s t : Text) → s ≡ t → text_eq s t ≡ true
    subst_eq s t e = rw e (text_eq_refl t)

-- The two halves of a surrogate pair.
abbrev pub is_high_surrogate : ℕ → Bool
is_high_surrogate c = leb 55296 c && leb c 56319

abbrev pub is_low_surrogate : ℕ → Bool
is_low_surrogate c = leb 56320 c && leb c 57343

-- The number of characters: a surrogate pair is one. The Boolean says whether the unit before is
-- the first half of a pair.
unfoldable pub count_chars : Bool → Text → ℕ
count_chars pending [] = 0
count_chars true (c ∷ s) =
    if is_low_surrogate c then count_chars false s else suc (count_chars (is_high_surrogate c) s)
count_chars false (c ∷ s) = suc (count_chars (is_high_surrogate c) s)

-- U+FE0E and U+FE0F.
unfoldable pub has_variation_selector : Text → Bool
has_variation_selector [] = false
has_variation_selector (c ∷ s) = c == 65038 || c == 65039 || has_variation_selector s

-- The length that PostgreSQL's `varchar(n)` reads.
unfoldable pub char_count : Text → ℕ
unfolding count_chars
char_count s = count_chars false s

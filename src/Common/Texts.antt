-- ===== src/Common/Texts.antt =====
-- Texts measured, and tested character by character, as the patterns of validation schemas do.
use Prim.Native.Nat.{ℕ, zero, suc, ◌+◌}
use Prim.Native.Char.{code}
use Prim.Native.String.{String}
use mathlib.Core.Bool.{Bool, true, false, ◌&&◌, ◌||◌}
use scribe_drop.Common.Tests.{leb, ltb, ◌==◌, if◌then◌else◌}

-- `text.length`, in UTF-16 units.
unfoldable pub text_length : String → ℕ
text_length String.[] = 0
text_length (String.◌∷◌ c s) = (if ltb (code c) 65536 then 1 else 2) + text_length s

unfoldable pub all_codes : (ℕ → Bool) → String → Bool
all_codes p String.[] = true
all_codes p (String.◌∷◌ c s) = p (code c) && all_codes p s

abbrev pub between : ℕ → ℕ → ℕ → Bool
between low high c = leb low c && leb c high

abbrev pub is_digit : ℕ → Bool
is_digit c = between b'0' b'9' c

-- `[A-Za-z0-9_-]`.
abbrev pub is_base64_url : ℕ → Bool
is_base64_url c =
    between b'A' b'Z' c || (between b'a' b'z' c || (is_digit c || (c == b'_' || c == b'-')))

-- `[0-9A-HJKMNP-TV-Z]`.
abbrev pub is_crockford : ℕ → Bool
is_crockford c =
    is_digit c
    || (between b'A' b'H' c
        || (between b'J' b'K' c
            || (between b'M' b'N' c || (between b'P' b'T' c || between b'V' b'Z' c))))

-- `[a-f0-9]`.
abbrev pub is_hex : ℕ → Bool
is_hex c = between b'a' b'f' c || is_digit c

unfoldable pub starts_with : String → String → Bool
starts_with String.[] s = true
starts_with (String.◌∷◌ c p) String.[] = false
starts_with (String.◌∷◌ c p) (String.◌∷◌ d s) = code c == code d && starts_with p s

unfoldable pub drop_characters : ℕ → String → String
drop_characters zero s = s
drop_characters (suc n) String.[] = String.[]
drop_characters (suc n) (String.◌∷◌ c s) = drop_characters n s

-- ===== src/Base/Text.antt =====
-- What the sources call of Go's `strings`, `net/url` and `unicode`, on texts as sequences of code
-- points. Texts are valid UTF-8.
use Prim.Native.Nat.{ℕ, ◌+◌, ◌-◌}
use Prim.Native.Char.{Char, code}
use Prim.Native.String.{String, [], ◌∷◌, slice}
use mathlib.Core.Bool.{Bool, true, false, ◌&&◌, ◌||◌}
use integration_nfeio.Base.Tests.{ltb, leb, ◌==◌, eq_str, if◌then◌else◌}

-- The bytes of a code point in UTF-8.
unfoldable pub utf8_size : ℕ → ℕ
utf8_size c = if ltb c 0x80 then 1 else if ltb c 0x800 then 2 else if ltb c 0x10000 then 3 else 4

-- `len`, which counts bytes.
unfoldable pub byte_len : String → ℕ
unfolding utf8_size
byte_len [] = 0
byte_len (c ∷ s) = utf8_size (code c) + byte_len s

-- `unicode.IsSpace`.
unfoldable pub is_space : ℕ → Bool
is_space c =
    (leb 9 c && leb c 13)
    || c == 32
    || c == 0x85
    || c == 0xa0
    || c == 0x1680
    || (leb 0x2000 c && leb c 0x200a)
    || c == 0x2028
    || c == 0x2029
    || c == 0x202f
    || c == 0x205f
    || c == 0x3000

unfoldable pub trim_left : String → String
unfolding is_space
trim_left [] = ""
trim_left (c ∷ s) = if is_space (code c) then trim_left s else c ∷ s

-- A character in front of a text that is trimmed at its right end.
abbrev pub cons_trimmed : Char → String → String
cons_trimmed c [] = if is_space (code c) then "" else c ∷ ""
cons_trimmed c (d ∷ s) = c ∷ d ∷ s

unfoldable pub trim_right : String → String
unfolding is_space
trim_right [] = ""
trim_right (c ∷ s) = cons_trimmed c (trim_right s)

-- `strings.TrimSpace`.
unfoldable pub trim_space : String → String
unfolding trim_left trim_right
trim_space s = trim_right (trim_left s)

-- The simple case folding of a code point, exact where the other side is ASCII: the letters, the
-- Kelvin sign and the long s.
unfoldable pub fold_code : ℕ → ℕ
fold_code c =
    if leb b'a' c && leb c b'z'
    then c - 32
    else if c == 0x212a
    then b'K'
    else if c == 0x17f
    then b'S'
    else c

-- `strings.EqualFold` against an ASCII name.
unfoldable pub equal_fold : String → String → Bool
unfolding fold_code
equal_fold [] [] = true
equal_fold (c ∷ s) (d ∷ t) = (fold_code (code c) == fold_code (code d)) && equal_fold s t
equal_fold _ _ = false

unfoldable pub has_char : ℕ → String → Bool
has_char n [] = false
has_char n (c ∷ s) = code c == n || has_char n s

-- `strings.HasPrefix`, and what `strings.TrimPrefix` leaves after the prefix.
unfoldable pub has_prefix : String → String → Bool
has_prefix s [] = true
has_prefix (c ∷ s) (d ∷ t) = code c == code d && has_prefix s t
has_prefix [] (d ∷ t) = false

-- `strings.HasSuffix`.
unfoldable pub has_suffix : String → String → Bool
has_suffix [] t = eq_str "" t
has_suffix (c ∷ s) t = eq_str (c ∷ s) t || has_suffix s t

-- `strings.Contains`.
unfoldable pub contains : String → String → Bool
unfolding has_prefix
contains [] t = eq_str "" t
contains (c ∷ s) t = has_prefix (c ∷ s) t || contains s t

unfoldable pub drop_chars : String → String → String
drop_chars s [] = s
drop_chars (c ∷ s) (d ∷ t) = drop_chars s t
drop_chars [] (d ∷ t) = ""

unfoldable pub trim_prefix : String → String → String
unfolding has_prefix drop_chars
trim_prefix s t = if has_prefix s t then drop_chars s t else s

-- One hexadecimal digit, from 0 to 15.
unfoldable pub hex_digit : ℕ → String
hex_digit d = slice "0123456789ABCDEF" d (d + 1)

-- ===== src/Path.antt =====
-- `pathSegment` of adapter.go, with `url.PathEscape`: one caller-supplied value as one URL segment.
pub mod Escape
pub mod Unescape
use integration_nfeio.Base.{
  ◌≡◌, refl, [], ◌∷◌, ℕ, ◌+◌, ◌/◌, ◌%◌, Char, code, String, ◌<>◌, Bool, ◌&&◌, ◌||◌, List, leb, ltb,
  ◌==◌, hex_digit, if◌then◌else◌,
}

-- `shouldEscape` in the mode of a path segment, negated.
unfoldable pub is_plain : ℕ → Bool
is_plain c =
    (leb b'a' c && leb c b'z')
    || (leb b'A' c && leb c b'Z')
    || (leb b'0' c && leb c b'9')
    || c == b'-'
    || c == b'_'
    || c == b'.'
    || c == b'~'
    || c == b'$'
    || c == b'&'
    || c == b'+'
    || c == b'='
    || c == b':'
    || c == b'@'

-- One byte as `%XX`.
unfoldable pub percent : ℕ → String
unfolding hex_digit
percent b = "%" <> (hex_digit (b / 16) <> hex_digit (b % 16))

-- The bytes of a code point.
unfoldable pub utf8 : ℕ → List ℕ
utf8 c =
    if ltb c 0x80
    then c ∷ []
    else if ltb c 0x800
    then (0xc0 + c / 64) ∷ (0x80 + c % 64) ∷ []
    else if ltb c 0x10000
    then (0xe0 + c / 4096) ∷ (0x80 + c / 64 % 64) ∷ (0x80 + c % 64) ∷ []
    else (0xf0 + c / 262144) ∷ (0x80 + c / 4096 % 64) ∷ (0x80 + c / 64 % 64) ∷ (0x80 + c % 64) ∷ []

unfoldable pub percent_all : List ℕ → String
unfolding percent
percent_all [] = ""
percent_all (b ∷ bs) = percent b <> percent_all bs

unfoldable pub escape_char : Char → String
unfolding is_plain percent_all utf8
escape_char c = if is_plain (code c) then String.◌∷◌ c "" else percent_all (utf8 (code c))

-- `pathSegment`.
unfoldable pub path_segment : String → String
unfolding escape_char
path_segment String.[] = ""
path_segment (String.◌∷◌ c s) = escape_char c <> path_segment s

escaped : path_segment "a/b?c#d é" ≡ "a%2Fb%3Fc%23d%20%C3%A9"
unfolding path_segment
escaped = refl

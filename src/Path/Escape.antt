-- ===== src/Path/Escape.antt =====
-- The characters that `pathSegment` writes.
use text.Mathlib.TextLemmas.{nil-append, cons-append}
use integration_nfeio.Base.{
  ℕ, zero, suc, ◌/◌, ◌%◌, ◌<◌, Char, code, String, Bool, true, ◌&&◌, List, [], ◌∷◌, ◌≡◌, ◌≢◌, refl,
  ◌⊎◌, inl, inr, arith, ltb, ◌==◌, hex_digit, Bool-cases, AllChars, AllChars-append,
}
use integration_nfeio.Path.{is_plain, percent, percent_all, utf8, escape_char, path_segment}

-- A character that `url.PathEscape` may write: plain, or the percent sign.
abbrev pub IsEscaped : ℕ → Type 0
IsEscaped c = (is_plain c ≡ true) ⊎ (c ≡ b'%')

abbrev plain_text : String → Bool
plain_text String.[] = true
plain_text (String.◌∷◌ c s) = is_plain (code c) && plain_text s

plain_text-AllChars : (s : String) → plain_text s ≡ true → AllChars IsEscaped s
plain_text-AllChars String.[] h = tt
plain_text-AllChars (String.◌∷◌ c s) h = (inl (ground arith), plain_text-AllChars s (ground arith))

-- Whether the first `n` digits are plain text.
plain_digits : ℕ → Bool
plain_digits zero = true
plain_digits (suc n) = plain_digits n && plain_text (hex_digit n)

plain_digit : (n d : ℕ) → d < n → plain_digits n ≡ true → plain_text (hex_digit d) ≡ true
unfolding plain_digits
plain_digit zero d less h = absurd (omega arith)
plain_digit (suc n) d less h = elim (Bool-cases (d == n)) [
  | inl last ↦ let same : d ≡ n = ground arith in rw same (ground arith)
  | inr before ↦ plain_digit n d (ground arith) (ground arith)
]

hex_digit-AllChars : (d : ℕ) → d < 16 → AllChars IsEscaped (hex_digit d)
unfolding plain_digits hex_digit is_plain
hex_digit-AllChars d less = plain_text-AllChars _ (plain_digit 16 d less refl)

percent-AllChars : (b : ℕ) → b < 256 → AllChars IsEscaped (percent b)
unfolding percent
percent-AllChars b h =
    AllChars-append IsEscaped "%" _ (inr refl, tt)
      (AllChars-append IsEscaped (hex_digit (b / 16)) _ (hex_digit-AllChars (b / 16) (omega arith))
        (hex_digit-AllChars (b % 16) (omega arith)))

abbrev pub AllBytes : List ℕ → Type 0
AllBytes [] = Unit
AllBytes (b ∷ bs) = (b < 256) × AllBytes bs

percent_all-AllChars : (bs : List ℕ) → AllBytes bs → AllChars IsEscaped (percent_all bs)
unfolding percent_all
percent_all-AllChars [] h = tt
percent_all-AllChars (b ∷ bs) (p, h) =
    AllChars-append IsEscaped (percent b) _ (percent-AllChars b p) (percent_all-AllChars bs h)

pub utf8-AllBytes : (c : ℕ) → c < 0x110000 → AllBytes (utf8 c)
unfolding utf8
utf8-AllBytes c h = elim (Bool-cases (ltb c 0x80)) [
  | inl one ↦ rw one (ground arith)
  | inr more ↦ elim (Bool-cases (ltb c 0x800)) [
    | inl two ↦ rw (more, two) (ground arith)
    | inr most ↦ elim (Bool-cases (ltb c 0x10000)) [
      | inl three ↦ rw (more, most, three) (ground arith)
      | inr four ↦ rw (more, most, four) (omega arith)
    ]
  ]
]

pub code-lt : (c : Char) → code c < 0x110000
code-lt (Char.char n h) = ground arith

escape_char-AllChars : (c : Char) → AllChars IsEscaped (escape_char c)
unfolding escape_char
escape_char-AllChars c = elim (Bool-cases (is_plain (code c))) [
  | inl plain ↦ rw plain (inl plain, tt)
  | inr other ↦ rw other (percent_all-AllChars (utf8 (code c)) (utf8-AllBytes _ (code-lt c)))
]

-- Whatever the caller's value, its segment is made of plain characters and percent signs.
path_segment-AllChars : (s : String) → AllChars IsEscaped (path_segment s)
unfolding path_segment
path_segment-AllChars String.[] = tt
path_segment-AllChars (String.◌∷◌ c s) =
    AllChars-append IsEscaped (escape_char c) _ (escape_char-AllChars c) (path_segment-AllChars s)

-- Not a "/", "?" or "#".
abbrev pub IsInSegment : ℕ → Type 0
IsInSegment c = (c ≢ b'/') × (c ≢ b'?') × (c ≢ b'#')

IsEscaped-IsInSegment : (c : ℕ) → IsEscaped c → IsInSegment c
unfolding is_plain
IsEscaped-IsInSegment c h = ground arith

AllChars-map :
    {P Q : ℕ → Type 0} (f : (c : ℕ) → P c → Q c) (s : String) → AllChars P s → AllChars Q s
AllChars-map f String.[] h = tt
AllChars-map f (String.◌∷◌ c s) (p, h) = (f (code c) p, AllChars-map f s h)

-- Whatever the caller's value, its escaped segment holds no "/", "?" or "#".
pub path_segment-IsInSegment : (s : String) → AllChars IsInSegment (path_segment s)
path_segment-IsInSegment s = AllChars-map IsEscaped-IsInSegment _ (path_segment-AllChars s)

-- A text of plain characters is its own segment.
pub path_segment_plain : (s : String) → AllChars (λ c. is_plain c ≡ true) s → path_segment s ≡ s
unfolding path_segment escape_char
path_segment_plain String.[] h = refl
path_segment_plain (String.◌∷◌ c s) (p, h) =
    rw p (rw (cons-append c "" (path_segment s), nil-append, path_segment_plain s h))

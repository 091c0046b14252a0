-- ===== src/Path/Unescape.antt =====
-- `pathSegment` of adapter.go beside a decoder of percent-escaped text.
use text.Mathlib.TextLemmas.{nil-append, cons-append, append_assoc}
use integration_nfeio.Base.{
  ℕ, ◌+◌, ◌*◌, ◌-◌, ◌/◌, ◌%◌, ◌<◌, Char, code, String, ◌<>◌, true, false, ◌&&◌, Option, none, some,
  List, [], ◌∷◌, ◌++◌, ◌≡◌, refl, ap, ◌∙◌, inl, inr, arith, ltb, leb, ◌==◌, hex_digit, Bool-cases,
  Below, below, if◌then◌else◌,
}
use integration_nfeio.Path.{is_plain, percent, percent_all, utf8, escape_char, path_segment}
use integration_nfeio.Path.Escape.{AllBytes, utf8-AllBytes, code-lt}

-- A decoder of RFC 3986 text, by what it has read of an escape.
pub data Reading : Type 0 where
  outside after_percent broken : Reading
  after_digit : ℕ → Reading

unfoldable pub hex_value : ℕ → Option ℕ
hex_value c =
    if leb b'0' c && leb c b'9'
    then some (c - b'0')
    else if leb b'A' c && leb c b'F'
    then some (c - 55)
    else if leb b'a' c && leb c b'f'
    then some (c - 87)
    else none

abbrev pub digit_read : Option ℕ → Reading
digit_read none = broken
digit_read (some h) = after_digit h

abbrev pub escape_read : Option ℕ → Reading
escape_read none = broken
escape_read (some l) = outside

abbrev pub next : Reading → ℕ → Reading
next outside c = if c == b'%' then after_percent else outside
next after_percent c = digit_read (hex_value c)
next (after_digit h) c = escape_read (hex_value c)
next broken c = broken

abbrev pub cons_byte : ℕ → Option (List ℕ) → Option (List ℕ)
cons_byte b none = none
cons_byte b (some bs) = some (b ∷ bs)

abbrev pub escaped_byte : ℕ → Option ℕ → Option (List ℕ) → Option (List ℕ)
escaped_byte h none rest = rest
escaped_byte h (some l) rest = cons_byte (h * 16 + l) rest

abbrev pub emit : Reading → ℕ → Option (List ℕ) → Option (List ℕ)
emit outside c rest = if c == b'%' then rest else cons_byte c rest
emit (after_digit h) c rest = escaped_byte h (hex_value c) rest
emit after_percent c rest = rest
emit broken c rest = rest

abbrev pub finish : Reading → Option (List ℕ)
finish outside = some []
finish _ = none

-- The bytes that a text stands for, `none` where an escape is cut short or has no two digits.
unfoldable pub decode_from : Reading → String → Option (List ℕ)
decode_from r String.[] = finish r
decode_from r (String.◌∷◌ c s) = emit r (code c) (decode_from (next r (code c)) s)

unfoldable pub unescape : String → Option (List ℕ)
unfolding decode_from
unescape s = decode_from outside s

-- The bytes of a text in UTF-8.
unfoldable pub bytes_of_text : String → List ℕ
unfolding utf8
bytes_of_text String.[] = []
bytes_of_text (String.◌∷◌ c s) = utf8 (code c) ++ bytes_of_text s

abbrev Decodes : ℕ → Type 0
Decodes d = (c : Char) × (hex_digit d ≡ String.◌∷◌ c "") × (hex_value (code c) ≡ some d)

digits : Below Decodes 16
unfolding hex_digit hex_value
digits = (
  ("F", refl, refl),
  (
    ("E", refl, refl),
    (
      ("D", refl, refl),
      (
        ("C", refl, refl),
        (
          ("B", refl, refl),
          (
            ("A", refl, refl),
            (
              ("9", refl, refl),
              (
                ("8", refl, refl),
                (
                  ("7", refl, refl),
                  (
                    ("6", refl, refl),
                    (
                      ("5", refl, refl),
                      (
                        ("4", refl, refl),
                        (
                          ("3", refl, refl),
                          (("2", refl, refl), (("1", refl, refl), (("0", refl, refl), tt))),
                        ),
                      ),
                    ),
                  ),
                ),
              ),
            ),
          ),
        ),
      ),
    ),
  ),
)

hex_digit-Decodes : (d : ℕ) → d < 16 → Decodes d
hex_digit-Decodes d less = below Decodes 16 d less digits

two_digits :
    (c d : Char) (s : String)
    → ("%" <> (String.◌∷◌ c "" <> String.◌∷◌ d "")) <> s
      ≡ String.◌∷◌ "%" (String.◌∷◌ c (String.◌∷◌ d s))
two_digits c d s =
    rw (cons-append "%" "" (String.◌∷◌ c "" <> String.◌∷◌ d "")) (simp (cons-append, nil-append))

decode_from-digits :
    (c d : Char) (s : String) {h l : ℕ}
    → hex_value (code c) ≡ some h
    → hex_value (code d) ≡ some l
    → decode_from outside (("%" <> (String.◌∷◌ c "" <> String.◌∷◌ d "")) <> s)
      ≡ cons_byte (h * 16 + l) (decode_from outside s)
unfolding decode_from
decode_from-digits c d s high low = rw (two_digits c d s, high, low) refl

decode_from-percent :
    (b : ℕ) (s : String)
    → b < 256
    → decode_from outside (percent b <> s) ≡ cons_byte b (decode_from outside s)
unfolding decode_from percent
decode_from-percent b s less =
    let (c, first, high) = hex_digit-Decodes (b / 16) (omega arith) in
    let (d, second, low) = hex_digit-Decodes (b % 16) (omega arith) in
    let same : b / 16 * 16 + b % 16 ≡ b = omega arith in
    rw (first, second)
      (decode_from-digits c d s {h = b / 16} {l = b % 16} high low
        ∙ ap (λ n. cons_byte n (decode_from outside s)) same)

decode_from-percent_all :
    (bs : List ℕ) (s : String)
    → AllBytes bs
    → {out : List ℕ} → decode_from outside s ≡ some out
    → decode_from outside (percent_all bs <> s) ≡ some (bs ++ out)
unfolding percent_all
decode_from-percent_all [] s h e = rw nil-append e
decode_from-percent_all (b ∷ bs) s (p, h) {out} e =
    rw
      (
        append_assoc (percent b) (percent_all bs) s,
        decode_from-percent b (percent_all bs <> s) p,
        decode_from-percent_all bs s h {out = out} e,
      )
      refl

plain_code : (n : ℕ) → is_plain n ≡ true → ((n == b'%') ≡ false) × (ltb n 0x80 ≡ true)
unfolding is_plain
plain_code n h = (ground arith, ground arith)

decode_from-plain :
    (c : Char) (s : String) {out : List ℕ}
    → is_plain (code c) ≡ true
    → decode_from outside s ≡ some out
    → decode_from outside (String.◌∷◌ c "" <> s) ≡ some (utf8 (code c) ++ out)
unfolding decode_from utf8
decode_from-plain c s {out} plain e =
    let (other, short) = plain_code (code c) plain in
    rw (cons-append c "" s, nil-append, other, short, e) refl

decode_from-escape_char :
    (c : Char) (s : String) {out : List ℕ}
    → decode_from outside s ≡ some out
    → decode_from outside (escape_char c <> s) ≡ some (utf8 (code c) ++ out)
unfolding escape_char
decode_from-escape_char c s {out} e = elim (Bool-cases (is_plain (code c))) [
  | inl plain ↦ rw plain (decode_from-plain c s {out = out} plain e)
  | inr other ↦
      rw other
        (decode_from-percent_all (utf8 (code c)) s (utf8-AllBytes _ (code-lt c)) {out = out} e)
]

-- Whatever the value, decoding its segment gives the bytes of the value: nothing is lost or added.
pub unescape-path_segment : (s : String) → unescape (path_segment s) ≡ some (bytes_of_text s)
unfolding unescape path_segment bytes_of_text decode_from
unescape-path_segment String.[] = refl
unescape-path_segment (String.◌∷◌ c s) =
    decode_from-escape_char c (path_segment s) (unescape-path_segment s)

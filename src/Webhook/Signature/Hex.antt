-- ===== src/Webhook/Signature/Hex.antt =====
-- The hexadecimal form of bytes, described apart from the code that decodes it.
use integration_nfeio.Base.{
  ℕ, ◌+◌, ◌*◌, ◌≤◌, ◌<◌, Char, code, String, true, false, ◌&&◌, Option, none, some, List, [], ◌∷◌,
  ◌≡◌, refl, inl, inr, arith, leb, ◌-◌, ◌==◌, Bool-cases, has_char,
}
use integration_nfeio.Webhook.Signature.{hex_value, joined, hex_decode}

-- `c` is a digit that stands for `d`: 0 to 9, a to f, or A to F.
pub data IsHexDigit (c d : ℕ) : Type 0 where
  decimal : c ≡ d + b'0' → d < 10 → IsHexDigit c d
  lower : c + 10 ≡ d + b'a' → 10 ≤ d → d < 16 → IsHexDigit c d
  upper : c + 10 ≡ d + b'A' → 10 ≤ d → d < 16 → IsHexDigit c d

-- The text is two digits for each of the bytes, the high one first.
abbrev pub IsHex : String → List ℕ → Type 0
IsHex s [] = s ≡ ""
IsHex s (n ∷ bs) =
    (a : Char) × (b : Char) × (rest : String) × (high : ℕ) × (low : ℕ) × (s
      ≡ String.◌∷◌ a (String.◌∷◌ b rest))
    × IsHexDigit (code a) high
    × IsHexDigit (code b) low
    × (n ≡ high * 16 + low)
    × IsHex rest bs

hex_value-IsHexDigit : (c : ℕ) {d : ℕ} → hex_value c ≡ some d → IsHexDigit c d
unfolding hex_value
hex_value-IsHexDigit c {d} e = elim (Bool-cases (leb b'0' c && leb c b'9')) [
  | inl number ↦ let same : c - 48 ≡ d = ground arith in decimal (ground arith) (ground arith)
  | inr no_number ↦ elim (Bool-cases (leb b'a' c && leb c b'f')) [
    | inl small ↦
        let same : c - 87 ≡ d = ground arith in lower (ground arith) (ground arith) (ground arith)
    | inr no_small ↦
        let big : leb b'A' c && leb c b'F' ≡ true = ground arith in
        let same : c - 55 ≡ d = ground arith in upper (ground arith) (ground arith) (ground arith)
  ]
]

IsHexDigit-hex_value : (c d : ℕ) → IsHexDigit c d → hex_value c ≡ some d
unfolding hex_value
IsHexDigit-hex_value c d (decimal e small) = let same : c - 48 ≡ d = ground arith in ground arith
IsHexDigit-hex_value c d (lower e big small) = let same : c - 87 ≡ d = ground arith in ground arith
IsHexDigit-hex_value c d (upper e big small) = let same : c - 55 ≡ d = ground arith in ground arith

IsHexDigit-plain : (c d : ℕ) → IsHexDigit c d → (c == b',') ≡ false
IsHexDigit-plain c d (decimal e small) = ground arith
IsHexDigit-plain c d (lower e big small) = ground arith
IsHexDigit-plain c d (upper e big small) = ground arith

joined-some :
    (x y : Option ℕ) (z : Option (List ℕ)) {bs : List ℕ}
    → joined x y z ≡ some bs
    → (a : ℕ) × (b : ℕ) × (cs : List ℕ) × (x ≡ some a)
      × (y ≡ some b)
      × (z ≡ some cs)
      × (bs ≡ (a * 16 + b) ∷ cs)
joined-some (some a) (some b) (some cs) e = (a, b, cs, refl, refl, refl, ground arith)
joined-some none y z e = absurd (cc)
joined-some (some a) none z e = absurd (cc)
joined-some (some a) (some b) none e = absurd (cc)

pub hex_decode-IsHex : (s : String) {bs : List ℕ} → hex_decode s ≡ some bs → IsHex s bs
unfolding hex_decode
hex_decode-IsHex String.[] {bs} e = let same : [] ≡ bs = ground arith in rw (← same) refl
hex_decode-IsHex (String.◌∷◌ a String.[]) e = absurd (cc)
hex_decode-IsHex (String.◌∷◌ a (String.◌∷◌ b s)) {bs} e =
    let (high, low, cs, h, l, r, same) =
      joined-some (hex_value (code a)) (hex_value (code b)) (hex_decode s) e in
    rw same (
      a,
      b,
      s,
      high,
      low,
      refl,
      hex_value-IsHexDigit (code a) h,
      hex_value-IsHexDigit (code b) l,
      refl,
      hex_decode-IsHex s r,
    )

pub IsHex-hex_decode : (s : String) (bs : List ℕ) → IsHex s bs → hex_decode s ≡ some bs
unfolding hex_decode
IsHex-hex_decode s [] e = rw e refl
IsHex-hex_decode s (n ∷ bs) (a, b, rest, high, low, split, h, l, byte, more) =
    rw
      (
        split,
        IsHexDigit-hex_value (code a) high h,
        IsHexDigit-hex_value (code b) low l,
        IsHex-hex_decode rest bs more,
        byte,
      )
      refl

-- A hexadecimal text has no comma.
pub IsHex-plain : (s : String) (bs : List ℕ) → IsHex s bs → has_char b',' s ≡ false
unfolding has_char
IsHex-plain s [] e = rw e refl
IsHex-plain s (n ∷ bs) (a, b, rest, high, low, split, h, l, byte, more) =
    rw
      (
        split,
        IsHexDigit-plain (code a) high h,
        IsHexDigit-plain (code b) low l,
        IsHex-plain rest bs more,
      )
      refl

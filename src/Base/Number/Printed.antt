-- ===== src/Base/Number/Printed.antt =====
-- Numbers printed and read again.
use text.Mathlib.TextLemmas.{nil-append, cons-append}
use Prim.Native.Nat.{ℕ, zero, suc, ◌+◌, ◌-◌, ◌*◌, ◌/◌, ◌%◌, ◌^◌, ◌≤◌, ◌<◌}
use Prim.Native.Char.{Char, code}
use Prim.Native.String.{String, [], ◌∷◌, ◌++◌ as ◌<>◌, slice}
use mathlib.Core.Path.{◌≡◌, refl, ap, ◌∙◌}
use mathlib.Core.Logic.{inl, inr}
use mathlib.Core.Bool.{true, ◌&&◌}
use mathlib.Core.Option.{some}
use native.Mathlib.Omega.{arith}
use integration_nfeio.Base.Tests.{ltb, leb, Bool-cases}
use integration_nfeio.Base.Upto.{Below, below}
use integration_nfeio.Base.Chars.{AllChars, AllChars-append}
use integration_nfeio.Base.Number.{
  ℤ, pos, negsuc, show_digits, show_nat, show_int, read_digits, read_unsigned, below_limit, atoi,
}

abbrev digit : ℕ → String
digit d = slice "0123456789" d (d + 1)

abbrev Prints : ℕ → Type 0
Prints d = (c : Char) × (digit d ≡ c ∷ "") × (code c ≡ 48 + d)

digits : Below Prints 10
digits = (
  ("9", refl, refl),
  (
    ("8", refl, refl),
    (
      ("7", refl, refl),
      (
        ("6", refl, refl),
        (
          ("5", refl, refl),
          (
            ("4", refl, refl),
            (("3", refl, refl), (("2", refl, refl), (("1", refl, refl), (("0", refl, refl), tt)))),
          ),
        ),
      ),
    ),
  ),
)

pub digit-Prints : (d : ℕ) → d < 10 → Prints d
digit-Prints d less = below Prints 10 d less digits

read_digits-digit : (acc d : ℕ) → d < 10 → read_digits acc (digit d) ≡ some (acc * 10 + d)
unfolding read_digits
read_digits-digit acc d less = let (c, e, value) = digit-Prints d less in rw e (ground arith)

-- A digit more at the end.
read_digits-append :
    (acc : ℕ) (s : String) (d : ℕ) {n : ℕ}
    → d < 10
    → read_digits acc s ≡ some n
    → read_digits acc (s <> digit d) ≡ some (n * 10 + d)
unfolding read_digits
read_digits-append acc [] d {n} less e =
    let same : acc ≡ n = cc in rw (nil-append, same) (read_digits-digit n d less)
read_digits-append acc (c ∷ s) d {n} less e =
    elim (Bool-cases (leb b'0' (code c) && leb (code c) b'9')) [
      | inl fine ↦
          rw (cons-append, fine)
            (read_digits-append (acc * 10 + (code c - 48)) s d {n = n} less (rw fine at e))
      | inr bad ↦ absurd (ground arith)
    ]

read_digit : (n : ℕ) → n < 10 → read_digits 0 (digit n) ≡ some n
read_digit n less =
    let same : 0 * 10 + n ≡ n = omega arith in read_digits-digit 0 n less ∙ ap some same

show_digits-read :
    (fuel n : ℕ) → n < 10 ^ suc fuel → read_digits 0 (show_digits (suc fuel) n) ≡ some n
unfolding show_digits
show_digits-read zero n less =
    let small : ltb n 10 ≡ true = ground arith in rw small (read_digit n (ground arith))
show_digits-read (suc fuel) n less = elim (Bool-cases (ltb n 10)) [
  | inl small ↦ rw small (read_digit n (ground arith))
  | inr large ↦
      let fits : n / 10 < 10 ^ suc fuel = omega arith in
      let same : n / 10 * 10 + n % 10 ≡ n = omega arith in
      rw large (
        read_digits-append 0 (show_digits (suc fuel) (n / 10)) (n % 10) {n = n / 10} (omega arith)
          (show_digits-read fuel (n / 10) fits)
        ∙ ap some same)
]

-- A text that starts with a digit.
abbrev StartsWithDigit : String → Type 0
StartsWithDigit [] = ⊥
StartsWithDigit (c ∷ s) = (48 ≤ code c) × (code c < 58)

digit-StartsWithDigit : (d : ℕ) → d < 10 → StartsWithDigit (digit d)
digit-StartsWithDigit d less =
    let (c, e, value) = digit-Prints d less in rw e (omega arith, omega arith)

append-StartsWithDigit : (s t : String) → StartsWithDigit s → StartsWithDigit (s <> t)
append-StartsWithDigit [] t h = absurd h
append-StartsWithDigit (c ∷ s) t h = rw cons-append h

show_digits-StartsWithDigit : (fuel n : ℕ) → StartsWithDigit (show_digits (suc fuel) n)
unfolding show_digits
show_digits-StartsWithDigit zero n = elim (Bool-cases (ltb n 10)) [
  | inl small ↦ rw small (digit-StartsWithDigit n (ground arith))
  | inr large ↦ rw (large, nil-append) (digit-StartsWithDigit (n % 10) (omega arith))
]
show_digits-StartsWithDigit (suc fuel) n = elim (Bool-cases (ltb n 10)) [
  | inl small ↦ rw small (digit-StartsWithDigit n (ground arith))
  | inr large ↦ rw large (append-StartsWithDigit _ _ (show_digits-StartsWithDigit fuel (n / 10)))
]

read_unsigned-digits : (s : String) → StartsWithDigit s → read_unsigned s ≡ read_digits 0 s
read_unsigned-digits [] h = absurd h
read_unsigned-digits (c ∷ s) h = refl

atoi-digits : (s : String) → StartsWithDigit s → atoi s ≡ below_limit (read_unsigned s)
unfolding atoi
atoi-digits [] h = absurd h
atoi-digits (c ∷ s) h = ground arith

-- In the range of a 64-bit integer.
abbrev pub IsInt64 : ℤ → Type 0
IsInt64 (pos n) = n < 2 ^ 63
IsInt64 (negsuc n) = n < 2 ^ 63

read_unsigned-show_nat : (n : ℕ) → n ≤ 2 ^ 63 → read_unsigned (show_nat n) ≡ some n
unfolding show_nat
read_unsigned-show_nat n less =
    read_unsigned-digits _ (show_digits-StartsWithDigit 19 n) ∙ show_digits-read 19 n (omega arith)

-- A 64-bit integer is read back from its text.
pub atoi-show_int : (z : ℤ) → IsInt64 z → atoi (show_int z) ≡ some z
unfolding show_int show_nat atoi
atoi-show_int (pos n) less =
    atoi-digits _ (show_digits-StartsWithDigit 19 n)
    ∙ rw (read_unsigned-show_nat n (omega arith)) (ground arith)
atoi-show_int (negsuc n) less =
    let same : n + 1 ≡ suc n = omega arith in
    rw
      (
        cons-append "-" "" (show_digits 20 (n + 1)),
        nil-append,
        read_unsigned-show_nat (n + 1) (omega arith),
        same,
      )
      (ground arith)

-- What holds of the digits and the sign holds of every character of a printed number.
module _ (P : ℕ → Type 0) (of_digit : (d : ℕ) → d < 10 → P (48 + d)) (of_sign : P 45) where
  digit-AllChars : (d : ℕ) → d < 10 → AllChars P (digit d)
  digit-AllChars d less =
      let (c, e, value) = digit-Prints d less in rw (e, value) (of_digit d less, tt)

  show_digits-AllChars : (fuel n : ℕ) → AllChars P (show_digits fuel n)
  unfolding show_digits
  show_digits-AllChars zero n = tt
  show_digits-AllChars (suc fuel) n = elim (Bool-cases (ltb n 10)) [
    | inl small ↦ rw small (digit-AllChars n (ground arith))
    | inr large ↦ rw large (
        AllChars-append P (show_digits fuel (n / 10)) _ (show_digits-AllChars fuel (n / 10))
          (digit-AllChars (n % 10) (omega arith)))
  ]

  pub show_int-AllChars : (z : ℤ) → AllChars P (show_int z)
  unfolding show_int show_nat
  show_int-AllChars (pos n) = show_digits-AllChars 20 n
  show_int-AllChars (negsuc n) =
      AllChars-append P "-" _ (of_sign, tt) (show_digits-AllChars 20 (n + 1))

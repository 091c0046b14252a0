-- ===== src/Base/Number.antt =====
-- Machine integers: `int` and `int64` are integers whose range is checked where a text is read.
pub mod Printed
use Prim.Native.Nat.{ℕ, zero, suc, ◌+◌, ◌-◌, ◌*◌, ◌/◌, ◌%◌, ◌^◌}
use Prim.Native.Char.{code}
use Prim.Native.String.{String, [], ◌∷◌, ◌++◌ as ◌<>◌, slice}
use mathlib.Core.Bool.{Bool, false, ◌&&◌}
use mathlib.Core.Option.{Option, none, some}
use integration_nfeio.Base.Tests.{ltb, leb, ◌==◌, if◌then◌else◌}

-- `negsuc n` is -(n + 1).
pub data ℤ : Type 0 where
  pos : ℕ → ℤ
  negsuc : ℕ → ℤ

abbrev pub eq_int : ℤ → ℤ → Bool
eq_int (pos a) (pos b) = a == b
eq_int (negsuc a) (negsuc b) = a == b
eq_int _ _ = false

abbrev pub gt_zero : ℤ → Bool
gt_zero (pos n) = ltb 0 n
gt_zero (negsuc n) = false

show_digits : ℕ → ℕ → String
show_digits zero n = ""
show_digits (suc fuel) n =
    let rest = show_digits fuel (n / 10) in
    if ltb n 10
    then slice "0123456789" n (n + 1)
    else rest <> slice "0123456789" (n % 10) (n % 10 + 1)

-- `%d` of a number; 20 digits are enough for 64 bits.
unfoldable pub show_nat : ℕ → String
unfolding show_digits
show_nat n = show_digits 20 n

unfoldable pub show_int : ℤ → String
unfolding show_nat
show_int (pos n) = show_nat n
show_int (negsuc n) = "-" <> show_nat (n + 1)

-- The digits to the end of the text, `none` at any other character.
unfoldable pub read_digits : ℕ → String → Option ℕ
read_digits acc [] = some acc
read_digits acc (c ∷ s) =
    let rest = read_digits (acc * 10 + (code c - 48)) s in
    if leb b'0' (code c) && leb (code c) b'9' then rest else none

abbrev read_unsigned : String → Option ℕ
read_unsigned [] = none
read_unsigned (c ∷ s) = read_digits 0 (c ∷ s)

abbrev below_limit : Option ℕ → Option ℤ
below_limit none = none
below_limit (some n) = if ltb n (2 ^ 63) then some (pos n) else none

abbrev negated : Option ℕ → Option ℤ
negated none = none
negated (some zero) = some (pos 0)
negated (some (suc n)) = if ltb n (2 ^ 63) then some (negsuc n) else none

-- `strconv.Atoi` and `strconv.ParseInt(s, 10, 64)` on a 64-bit machine.
unfoldable pub atoi : String → Option ℤ
unfolding read_digits
atoi [] = none
atoi (c ∷ s) =
    if code c == b'-'
    then negated (read_unsigned s)
    else if code c == b'+'
    then below_limit (read_unsigned s)
    else below_limit (read_unsigned (c ∷ s))

-- ===== src/Base/Chars.antt =====
-- A property of every character of a text.
use text.Mathlib.TextLemmas.{nil-append, cons-append}
use Prim.Native.Nat.{ℕ}
use Prim.Native.Char.{code}
use Prim.Native.String.{String, ◌++◌ as ◌<>◌}

abbrev pub AllChars : (ℕ → Type 0) → String → Type 0
AllChars P String.[] = Unit
AllChars P (String.◌∷◌ c s) = P (code c) × AllChars P s

pub AllChars-append :
    (P : ℕ → Type 0) (s t : String) → AllChars P s → AllChars P t → AllChars P (s <> t)
AllChars-append P String.[] t h k = rw nil-append k
AllChars-append P (String.◌∷◌ c s) t (p, h) k = rw cons-append (p, AllChars-append P s t h k)

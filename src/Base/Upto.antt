-- ===== src/Base/Upto.antt =====
-- Facts about each number below a numeral, proved one by one.
use Prim.Native.Nat.{ℕ, zero, suc, ◌<◌}
use mathlib.Core.Path.{◌≡◌}
use mathlib.Core.Logic.{inl, inr}
use native.Mathlib.Omega.{arith}
use integration_nfeio.Base.Tests.{◌==◌, Bool-cases}

abbrev pub Below : (ℕ → Type 0) → ℕ → Type 0
Below P zero = Unit
Below P (suc n) = P n × Below P n

pub below : (P : ℕ → Type 0) (n d : ℕ) → d < n → Below P n → P d
below P zero d less h = absurd (omega arith)
below P (suc n) d less (p, h) = elim (Bool-cases (d == n)) [
  | inl last ↦ let same : n ≡ d = ground arith in rw same at p
  | inr before ↦ below P n d (ground arith) h
]

-- ===== src/Base/Ints.antt =====
-- Go's int as far as the program reads it: signs, equality, and the order with small constants.
use Prim.Native.Nat.{ℕ, ◌%◌, ◌-◌, ◌<◌}
use mathlib.Core.Path.{◌≡◌}
use mathlib.Core.Logic.{◌↔◌}
use mathlib.Core.Bool.{Bool, true, false}
use native.Mathlib.Omega.{arith}
use agmux.Base.Tests.{◌==◌, ltb, if◌then◌else◌}

-- `negsuc n` is -(n + 1).
pub data ℤ : Type 0 where
  pos : ℕ → ℤ
  negsuc : ℕ → ℤ

abbrev pub int_eq : ℤ → ℤ → Bool
int_eq (pos a) (pos b) = a == b
int_eq (pos a) (negsuc b) = false
int_eq (negsuc a) (pos b) = false
int_eq (negsuc a) (negsuc b) = a == b

-- 0 < a
abbrev pub positive : ℤ → Bool
positive (pos a) = ltb 0 a
positive (negsuc a) = false

-- The int64 whose two's complement has the low 64 bits of a number.
unfoldable pub int64 : ℕ → ℤ
int64 n =
    let low = n % 18446744073709551616 in
    if ltb low 9223372036854775808 then pos low else negsuc (18446744073709551615 - low)

pub int64-small : (n : ℕ) → n < 9223372036854775808 → int64 n ≡ pos n
unfolding int64
int64-small n h = ground (arith, h)

pub int_eq_iff : (a b : ℤ) → (int_eq a b ≡ true) ↔ (a ≡ b)
int_eq_iff (pos a) (pos b) = ground arith
int_eq_iff (pos a) (negsuc b) = ground arith
int_eq_iff (negsuc a) (pos b) = ground arith
int_eq_iff (negsuc a) (negsuc b) = ground arith

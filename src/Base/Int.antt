-- ===== src/Base/Int.antt =====
-- Signed integers: Go's int and int64. Sums and orders go through the two parts of an integer.
use Prim.Native.Nat.{ℕ, suc, ◌+◌, ◌-◌, ◌≤◌, ◌<◌, ◌%◌, ◌/◌, ◌^◌}
use mathlib.Core.Path.{◌≡◌}
use mathlib.Core.Logic.{◌↔◌}
use mathlib.Core.Bool.{Bool, true}
use native.Mathlib.Omega.{arith}
use navmesh_go.Base.Tests.{ltb, leb, ◌==◌, if◌then◌else◌}

-- `negsuc n` is -(n + 1).
pub data ℤ : Type 0 where
  pos : ℕ → ℤ
  negsuc : ℕ → ℤ

abbrev pub pos_part : ℤ → ℕ
pos_part (pos n) = n
pos_part (negsuc n) = 0

abbrev pub neg_part : ℤ → ℕ
neg_part (pos n) = 0
neg_part (negsuc n) = suc n

-- a - b, as an integer.
abbrev pub sub_ℕ : ℕ → ℕ → ℤ
sub_ℕ a b = if leb b a then pos (a - b) else negsuc (b - a - 1)

infix 50 ◌≤ℤ◌ ◌<ℤ◌
abbrev pub ◌≤ℤ◌ : ℤ → ℤ → Type 0
a ≤ℤ b = pos_part a + neg_part b ≤ pos_part b + neg_part a

abbrev pub ◌<ℤ◌ : ℤ → ℤ → Type 0
a <ℤ b = pos_part a + neg_part b < pos_part b + neg_part a

abbrev pub leb_ℤ : ℤ → ℤ → Bool
leb_ℤ a b = leb (pos_part a + neg_part b) (pos_part b + neg_part a)

abbrev pub ltb_ℤ : ℤ → ℤ → Bool
ltb_ℤ a b = ltb (pos_part a + neg_part b) (pos_part b + neg_part a)

abbrev pub eq_ℤ : ℤ → ℤ → Bool
eq_ℤ a b = (pos_part a + neg_part b) == (pos_part b + neg_part a)

-- The integer whose two's complement pattern of 64 bits is `u`.
abbrev pub of_bits64 : ℕ → ℤ
of_bits64 u = if ltb u (2 ^ 63) then pos u else negsuc (2 ^ 64 - 1 - u)

abbrev pub to_bits64 : ℤ → ℕ
to_bits64 (pos n) = n % 2 ^ 64
to_bits64 (negsuc n) = 2 ^ 64 - 1 - n % 2 ^ 64

-- int64 subtraction, which wraps around.
unfoldable pub sub64 : ℤ → ℤ → ℤ
sub64 a b = of_bits64 (to_bits64 (sub_ℕ (pos_part a + neg_part b) (neg_part a + pos_part b)))

-- With both operands in [0, 2^63) the difference does not wrap.
pub sub64_exact : (m n : ℕ) → m < 2 ^ 63 → n < 2 ^ 63 → sub64 (pos m) (pos n) ≡ sub_ℕ m n
unfolding sub64
sub64_exact m n hm hn = ground arith

pub eq_ℤ_iff : (a b : ℤ) → (eq_ℤ a b ≡ true) ↔ (a ≡ b)
eq_ℤ_iff a b = ground arith

-- a + b, without a bound.
abbrev pub add_ℤ : ℤ → ℤ → ℤ
add_ℤ a b = sub_ℕ (pos_part a + pos_part b) (neg_part a + neg_part b)

-- Go's a / b for a positive b, which rounds to 0.
abbrev pub quot_ℤ : ℤ → ℕ → ℤ
quot_ℤ (pos n) b = pos (n / b)
quot_ℤ (negsuc n) b = sub_ℕ 0 (suc n / b)

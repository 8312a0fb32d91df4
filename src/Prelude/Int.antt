-- ===== src/Prelude/Int.antt =====
-- Go's `int` as an integer, and `int64` with its wrap-around written out. The library's ℤ stands
-- on the unary numbers; this one keeps its name over the native ones.
use Prim.Native.Nat.{ℕ, suc, ◌+◌, ◌-◌, ◌%◌, ◌<◌}
use mathlib.Core.Path.{◌≡◌}
use mathlib.Core.Logic.{◌↔◌}
use mathlib.Core.Bool.{Bool, true, false}
use native.Mathlib.Omega.{arith}
use cpu_policy_plugins_for_k.Prelude.Tests.{Eq, ltb, leb, nat_beq, if◌then◌else◌}

-- `negsuc n` is -(n + 1).
pub data ℤ : Type 0 where
  pos : ℕ → ℤ
  negsuc : ℕ → ℤ

abbrev pub pos_part : ℤ → ℕ
pos_part (pos n) = n
pos_part (negsuc n) = 0

abbrev pub neg_part : ℤ → ℕ
neg_part (pos n) = 0
neg_part (negsuc n) = suc n

-- a - b, as an integer.
abbrev pub sub_ℕ : ℕ → ℕ → ℤ
sub_ℕ a b = if leb b a then pos (a - b) else negsuc (b - a - 1)

infixl 65 ◌+ℤ◌ ◌-ℤ◌
unfoldable pub ◌+ℤ◌ : ℤ → ℤ → ℤ
a +ℤ b = sub_ℕ (pos_part a + pos_part b) (neg_part a + neg_part b)

unfoldable pub ◌-ℤ◌ : ℤ → ℤ → ℤ
a -ℤ b = sub_ℕ (pos_part a + neg_part b) (neg_part a + pos_part b)

abbrev pub ltb_ℤ : ℤ → ℤ → Bool
ltb_ℤ a b = ltb (pos_part a + neg_part b) (pos_part b + neg_part a)

abbrev pub leb_ℤ : ℤ → ℤ → Bool
leb_ℤ a b = leb (pos_part a + neg_part b) (pos_part b + neg_part a)

abbrev pub int_beq : ℤ → ℤ → Bool
int_beq (pos a) (pos b) = nat_beq a b
int_beq (negsuc a) (negsuc b) = nat_beq a b
int_beq _ _ = false

pub int_beq_iff : (a b : ℤ) → (int_beq a b ≡ true) ↔ (a ≡ b)
int_beq_iff a b = ground arith

instance abbrev pub int_eq : Eq ℤ
int_eq = record { equal = int_beq; equal_iff = int_beq_iff }

pub ltb_ℤ-irrefl : (a : ℤ) → ltb_ℤ a a ≡ false
ltb_ℤ-irrefl a = ground arith

pub ltb_ℤ-trans : (a b c : ℤ) → ltb_ℤ a b ≡ true → ltb_ℤ b c ≡ true → ltb_ℤ a c ≡ true
ltb_ℤ-trans a b c p q = ground arith

pub ltb_ℤ-total : (a b : ℤ) → ltb_ℤ a b ≡ false → ltb_ℤ b a ≡ false → a ≡ b
ltb_ℤ-total a b p q = ground arith

-- int64: two's complement of 64 bits.
abbrev pub two_63 : ℕ
two_63 = 9223372036854775808

abbrev pub two_64 : ℕ
two_64 = 18446744073709551616

-- The bit pattern of an integer, as a number below 2 ^ 64.
unfoldable pub bits64 : ℤ → ℕ
bits64 (pos n) = n % two_64
bits64 (negsuc n) = two_64 - 1 - n % two_64

-- The int64 that a bit pattern stands for.
unfoldable pub int64_of : ℕ → ℤ
int64_of m = if ltb m two_63 then pos m else negsuc (two_64 - 1 - m)

-- `int64(x)`: what is left of an integer in 64 bits.
unfoldable pub wrap64 : ℤ → ℤ
unfolding bits64 int64_of
wrap64 a = int64_of (bits64 a)

unfoldable pub add64 : ℤ → ℤ → ℤ
unfolding wrap64 ◌+ℤ◌
add64 a b = wrap64 (a +ℤ b)

unfoldable pub sub64 : ℤ → ℤ → ℤ
unfolding wrap64 ◌-ℤ◌
sub64 a b = wrap64 (a -ℤ b)

pub bits64-lt : (a : ℤ) → bits64 a < two_64
unfolding bits64
bits64-lt (pos n) = omega arith
bits64-lt (negsuc n) = omega arith

pub bits64-int64_of : (m : ℕ) → m < two_64 → bits64 (int64_of m) ≡ m
unfolding bits64 int64_of
bits64-int64_of m h = ground arith

bits64-sub_ℕ : (a b : ℕ) → bits64 (sub_ℕ a b) ≡ (a % two_64 + two_64 - b % two_64) % two_64
unfolding bits64
bits64-sub_ℕ a b = ground arith

bits64-parts : (a : ℤ) → bits64 a ≡ (pos_part a % two_64 + two_64 - neg_part a % two_64) % two_64
unfolding bits64
bits64-parts (pos n) = omega arith
bits64-parts (negsuc n) = omega arith

pub bits64-wrap64 : (a : ℤ) → bits64 (wrap64 a) ≡ bits64 a
unfolding wrap64
bits64-wrap64 a = bits64-int64_of (bits64 a) (bits64-lt a)

pub bits64-add64 : (a b : ℤ) → bits64 (add64 a b) ≡ (bits64 a + bits64 b) % two_64
unfolding add64
bits64-add64 a b = omega (
  arith,
  bits64-wrap64 (a +ℤ b),
  bits64-sub_ℕ (pos_part a + pos_part b) (neg_part a + neg_part b),
  bits64-parts a,
  bits64-parts b,
)

pub bits64-sub64 : (a b : ℤ) → bits64 (sub64 a b) ≡ (bits64 a + two_64 - bits64 b) % two_64
unfolding sub64
bits64-sub64 a b = omega (
  arith,
  bits64-wrap64 (a -ℤ b),
  bits64-sub_ℕ (pos_part a + neg_part b) (neg_part a + pos_part b),
  bits64-parts a,
  bits64-parts b,
)

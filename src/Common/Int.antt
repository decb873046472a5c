-- ===== src/Common/Int.antt =====
-- Signed numbers (i64 values) over the native numbers.
use Prim.Native.Nat.{ℕ, suc, ◌+◌, ◌-◌, ◌/◌, ◌≤◌}
use mathlib.Core.Path.{◌≡◌}
use mathlib.Core.Logic.{◌↔◌}
use mathlib.Core.Bool.{Bool, true, false, ◌&&◌}
use native.Mathlib.Omega.{arith}
use ros2trace_analyzer.Common.Tests.{◌==◌, leb, if◌then◌else◌}

-- `negsuc n` is -(n + 1).
pub data ℤ : Type 0 where
  pos : ℕ → ℤ
  negsuc : ℕ → ℤ

abbrev pub int_eq : ℤ → ℤ → Bool
int_eq (pos a) (pos b) = a == b
int_eq (negsuc a) (negsuc b) = a == b
int_eq (pos a) (negsuc b) = false
int_eq (negsuc a) (pos b) = false

pub int_eq_iff : (a b : ℤ) → (int_eq a b ≡ true) ↔ (a ≡ b)
int_eq_iff a b = ground arith

pub int_eq_refl : (a : ℤ) → int_eq a a ≡ true
int_eq_refl a = (int_eq_iff a a).1 (λ _. a)

abbrev pub pos_part : ℤ → ℕ
pos_part (pos n) = n
pos_part (negsuc n) = 0

abbrev pub neg_part : ℤ → ℕ
neg_part (pos n) = 0
neg_part (negsuc n) = suc n

-- a - b, as an integer.
abbrev pub sub_ℕ : ℕ → ℕ → ℤ
sub_ℕ a b = if leb b a then pos (a - b) else negsuc (b - a - 1)

infixl 65 ◌+ℤ◌ ◌-ℤ◌
infix 50 ◌≤ℤ◌
unfoldable pub ◌+ℤ◌ : ℤ → ℤ → ℤ
a +ℤ b = sub_ℕ (pos_part a + pos_part b) (neg_part a + neg_part b)

unfoldable pub ◌-ℤ◌ : ℤ → ℤ → ℤ
a -ℤ b = sub_ℕ (pos_part a + neg_part b) (neg_part a + pos_part b)

abbrev pub ◌≤ℤ◌ : ℤ → ℤ → Type 0
a ≤ℤ b = pos_part a + neg_part b ≤ pos_part b + neg_part a

abbrev pub leb_ℤ : ℤ → ℤ → Bool
leb_ℤ a b = leb (pos_part a + neg_part b) (pos_part b + neg_part a)

pub +ℤ_parts :
    (a b : ℤ)
    → pos_part (a +ℤ b) + neg_part a + neg_part b ≡ neg_part (a +ℤ b) + pos_part a + pos_part b
unfolding ◌+ℤ◌
+ℤ_parts a b = ground arith

pub -ℤ_parts :
    (a b : ℤ)
    → pos_part (a -ℤ b) + neg_part a + pos_part b ≡ neg_part (a -ℤ b) + pos_part a + neg_part b
unfolding ◌-ℤ◌
-ℤ_parts a b = ground arith

pub eq_of_parts : (a b : ℤ) → pos_part a + neg_part b ≡ pos_part b + neg_part a → a ≡ b
eq_of_parts a b h = ground arith

pub +ℤ_assoc : (a b c : ℤ) → (a +ℤ b) +ℤ c ≡ a +ℤ (b +ℤ c)
+ℤ_assoc a b c =
    eq_of_parts _ _
      (omega (arith, +ℤ_parts (a +ℤ b) c, +ℤ_parts a b, +ℤ_parts a (b +ℤ c), +ℤ_parts b c))

pub +ℤ_zero : (a : ℤ) → a +ℤ pos 0 ≡ a
+ℤ_zero a = eq_of_parts _ _ (omega (arith, +ℤ_parts a (pos 0)))

pub zero_+ℤ : (a : ℤ) → pos 0 +ℤ a ≡ a
zero_+ℤ a = eq_of_parts _ _ (omega (arith, +ℤ_parts (pos 0) a))

pub +ℤ_-ℤ : (a b : ℤ) → a +ℤ (b -ℤ a) ≡ b
+ℤ_-ℤ a b = eq_of_parts _ _ (omega (arith, +ℤ_parts a (b -ℤ a), -ℤ_parts b a))

pub -ℤ_+ℤ : (a d : ℤ) → (a +ℤ d) -ℤ a ≡ d
-ℤ_+ℤ a d = eq_of_parts _ _ (omega (arith, +ℤ_parts a d, -ℤ_parts (a +ℤ d) a))

-- A difference is not negative where the first is not greater.
pub leb_ℤ--ℤ : (a b : ℤ) → leb_ℤ (pos 0) (b -ℤ a) ≡ leb_ℤ a b
leb_ℤ--ℤ a b = ground (arith, -ℤ_parts b a)

-- The values of an `i64`.
abbrev pub i64_max : ℤ
i64_max = pos 0x7fffffffffffffff

abbrev pub i64_min : ℤ
i64_min = negsuc 0x7fffffffffffffff

unfoldable pub is_i64 : ℤ → Bool
is_i64 a = leb_ℤ i64_min a && leb_ℤ a i64_max

-- Division of integers by a count, towards zero.
unfoldable pub div_ℤ : ℤ → ℕ → ℤ
div_ℤ (pos a) n = pos (a / n)
div_ℤ (negsuc a) n = sub_ℕ 0 (suc a / n)

pub leb_ℤ_total : (a b : ℤ) → leb_ℤ a b ≡ false → leb_ℤ b a ≡ true
leb_ℤ_total a b h = ground arith

pub leb_ℤ_trans : (a b c : ℤ) → leb_ℤ a b ≡ true → leb_ℤ b c ≡ true → leb_ℤ a c ≡ true
leb_ℤ_trans a b c h k = ground arith

-- The parts of -x.
pub negated : (x : ℕ) → (pos_part (sub_ℕ 0 x) ≡ 0) × (neg_part (sub_ℕ 0 x) ≡ x)
negated x = (ground arith, ground arith)

-- ===== src/Statistics/Float.antt =====
-- The arithmetic of `f64` that src/statistics.rs uses. It belongs to the hardware: its operations are a
-- parameter, and their laws are those of IEEE 754 on the values that can occur, none of which is a NaN.
use ros2trace_analyzer.Common.{ℕ, ◌≤◌, ◌^◌, Bool, true, ◌≡◌}

pub record Floats (F : Type 0) : Type 0 where
  pub zero : F
  pub half : F
  pub one : F
  -- `as f64` of a length.
  pub of_ℕ : ℕ → F
  pub mul : F → F → F
  pub leb : F → F → Bool
  -- `.ceil() as usize`.
  pub ceil : F → ℕ

-- Numbers up to 2 ^ 53 are represented exactly; rounding keeps the order.
pub record IsIeee {F : Type 0} (floats : Floats F) : Type 0 where
  pub of_ℕ-nonnegative : (n : ℕ) → floats.leb floats.zero (floats.of_ℕ n) ≡ true
  pub ceil-of_ℕ : (n : ℕ) → n ≤ 2 ^ 53 → floats.ceil (floats.of_ℕ n) ≡ n
  pub one-mul : (x : F) → floats.mul floats.one x ≡ x
  pub mul_mono :
      (x y z : F)
      → floats.leb x y ≡ true
      → floats.leb floats.zero z ≡ true
      → floats.leb (floats.mul x z) (floats.mul y z) ≡ true
  pub ceil_mono : (x y : F) → floats.leb x y ≡ true → floats.ceil x ≤ floats.ceil y
  pub zero-half : floats.leb floats.zero floats.half ≡ true
  pub half-one : floats.leb floats.half floats.one ≡ true

-- ===== src/Statistics/Means.antt =====
-- The mean of src/statistics.rs.
use native.Mathlib.Nat.{suc-mul, mul-suc, mul_comm, le-div_iff_mul-le, div-le_of_le-mul}
use ros2trace_analyzer.Common.{
  ℕ, suc, ◌+◌, ◌*◌, ◌/◌, ◌≤◌, ℤ, pos, negsuc, +ℤ_parts, ◌≤ℤ◌, pos_part, neg_part, negated, div_ℤ,
  is_i64, true, List, [], ◌∷◌, length, some, ok, ◌≡◌, arith,
}
use ros2trace_analyzer.Statistics.{sum, expect_i64, mean}

is_i64-between :
    (lo m hi : ℤ) → is_i64 lo ≡ true → is_i64 hi ≡ true → lo ≤ℤ m → m ≤ℤ hi → is_i64 m ≡ true
unfolding is_i64
is_i64-between lo m hi low high ge le = ground arith

-- Every value lies between the two.
abbrev pub AllBetween : ℤ → ℤ → List ℤ → Type 0
AllBetween lo hi [] = Unit {0}
AllBetween lo hi (x ∷ xs) = (lo ≤ℤ x) × (x ≤ℤ hi) × AllBetween lo hi xs

sum-le :
    (lo hi : ℤ) (xs : List ℤ)
    → AllBetween lo hi xs
    → pos_part (sum xs) + length xs * neg_part hi ≤ length xs * pos_part hi + neg_part (sum xs)
unfolding sum
sum-le lo hi [] all = omega arith
sum-le lo hi (x ∷ xs) (low, high, all) = omega (
  arith,
  +ℤ_parts x (sum xs),
  sum-le lo hi xs all,
  suc-mul (length xs) (pos_part hi),
  suc-mul (length xs) (neg_part hi),
)

sum-ge :
    (lo hi : ℤ) (xs : List ℤ)
    → AllBetween lo hi xs
    → length xs * pos_part lo + neg_part (sum xs) ≤ pos_part (sum xs) + length xs * neg_part lo
unfolding sum
sum-ge lo hi [] all = omega arith
sum-ge lo hi (x ∷ xs) (low, high, all) = omega (
  arith,
  +ℤ_parts x (sum xs),
  sum-ge lo hi xs all,
  suc-mul (length xs) (pos_part lo),
  suc-mul (length xs) (neg_part lo),
)

-- Division towards zero keeps a value between multiples of the divisor between the factors.
div_ℤ-le :
    (hi s : ℤ) (n : ℕ)
    → 1 ≤ n
    → pos_part s + n * neg_part hi ≤ n * pos_part hi + neg_part s
    → div_ℤ s n ≤ℤ hi
unfolding div_ℤ
div_ℤ-le (pos h) (pos a) n nonzero le =
    omega (arith, div-le_of_le-mul n {m = a} {n = h} (omega arith))
div_ℤ-le (pos h) (negsuc a) n nonzero le = omega (arith, negated (suc a / n))
div_ℤ-le (negsuc h) (pos a) n nonzero le = omega (arith, mul-suc n h)
div_ℤ-le (negsuc h) (negsuc a) n nonzero le = omega (
  arith,
  negated (suc a / n),
  mul_comm n (suc h),
  (le-div_iff_mul-le {k = n} {x = suc h} {y = suc a} nonzero).1 (omega (arith, mul_comm n (suc h))),
)

div_ℤ-ge :
    (lo s : ℤ) (n : ℕ)
    → 1 ≤ n
    → n * pos_part lo + neg_part s ≤ pos_part s + n * neg_part lo
    → lo ≤ℤ div_ℤ s n
unfolding div_ℤ
div_ℤ-ge (pos l) (pos a) n nonzero le =
    omega
      (arith, (le-div_iff_mul-le {k = n} {x = l} {y = a} nonzero).1 (omega (arith, mul_comm n l)))
div_ℤ-ge (pos l) (negsuc a) n nonzero le = absurd (omega arith)
div_ℤ-ge (negsuc l) (pos a) n nonzero le = omega arith
div_ℤ-ge (negsuc l) (negsuc a) n nonzero le =
    omega (arith, negated (suc a / n), div-le_of_le-mul n {m = suc a} {n = suc l} (omega arith))

-- The mean of values between two 64-bit integers, of which there is at least one, is returned, and lies between
-- them: it fits into 64 bits.
pub mean-between :
    (lo hi : ℤ) (x : ℤ) (xs : List ℤ)
    → is_i64 lo ≡ true
    → is_i64 hi ≡ true
    → AllBetween lo hi (x ∷ xs)
    → (m : ℤ) × (mean (x ∷ xs) ≡ ok (some m)) × (lo ≤ℤ m) × (m ≤ℤ hi)
unfolding mean expect_i64
mean-between lo hi x xs low high all =
    let n = length (x ∷ xs) in
    let m = div_ℤ (sum (x ∷ xs)) n in
    let ge = div_ℤ-ge lo (sum (x ∷ xs)) n (omega arith) (sum-ge lo hi (x ∷ xs) all) in
    let le = div_ℤ-le hi (sum (x ∷ xs)) n (omega arith) (sum-le lo hi (x ∷ xs) all) in
    (m, rw (is_i64-between lo m hi low high ge le), ge, le)

-- ===== src/Statistics/Tests.antt =====
-- Statistics of a few values, with numbers in thousandths for the arithmetic of floating point.
use mathlib.Core.List.{Perm}
use native.Mathlib.Nat.{mul-le-mul_right}
use ros2trace_analyzer.Common.{
  ℕ, ◌+◌, ◌-◌, ◌*◌, ◌/◌, ◌≤◌, leb, ℤ, pos, negsuc, ◌≤ℤ◌, is_i64, true, List, [], ◌∷◌, some, ok, ◌≡◌,
  refl, arith,
}
use ros2trace_analyzer.Statistics.Float.{Floats, IsIeee}
use ros2trace_analyzer.Statistics.{
  i64_order, Sorted, Quantile, rank, quantile, is_sorted, sorted_from, from_unsorted, mean,
}
use ros2trace_analyzer.Statistics.Sort.{from_unsorted-sorts}
use ros2trace_analyzer.Statistics.Quantiles.{
  count, up_to, below, quantile-nearest_rank, quantile_mono,
}
use ros2trace_analyzer.Statistics.Means.{mean-between}

abbrev pub thousandths : Floats ℕ
thousandths = record {
  zero = 0;
  half = 500;
  one = 1000;
  of_ℕ = λ n. n * 1000;
  mul = λ a b. a * b / 1000;
  leb = leb;
  ceil = λ a. (a + 999) / 1000;
}

pub thousandths-IsIeee : IsIeee thousandths
thousandths-IsIeee = record {
  of_ℕ-nonnegative = λ n. ground arith;
  ceil-of_ℕ = λ n small. omega arith;
  one-mul = λ x. omega arith;
  mul_mono = λ x y z h k. ground (arith, mul-le-mul_right {m = x} {n = y} z (ground arith));
  ceil_mono = λ x y h. ground arith;
  zero-half = refl;
  half-one = refl;
}

abbrev values : List ℤ
values = pos 3 ∷ negsuc 1 ∷ pos 5 ∷ pos 2 ∷ []

abbrev in_order : Sorted ℤ
in_order = record { values = negsuc 1 ∷ pos 2 ∷ pos 3 ∷ pos 5 ∷ [] }

abbrev third : Quantile ℕ
third = record { value = 333 }

abbrev pub ninth_tenth : Quantile ℕ
ninth_tenth = record { value = 900 }

from_unsorted-sorts_example :
    (is_sorted (from_unsorted values).values ≡ true) × Perm (from_unsorted values).values values
from_unsorted-sorts_example = from_unsorted-sorts values

quantile-nearest_rank_example :
    (v : ℤ) × (quantile thousandths third in_order ≡ some v)
    × (rank thousandths third 4 ≤ count (up_to v) in_order.values)
    × (count (below v) in_order.values ≤ rank thousandths third 4 - 1)
unfolding is_sorted sorted_from
quantile-nearest_rank_example =
    quantile-nearest_rank thousandths thousandths-IsIeee third in_order (refl, refl) refl
      (omega arith) (omega arith)

quantile_mono_example : i64_order.leb (pos 2) (pos 5) ≡ true
unfolding is_sorted sorted_from quantile
quantile_mono_example =
    quantile_mono thousandths thousandths-IsIeee third ninth_tenth in_order (pos 2) (pos 5) refl
      refl (omega arith) refl refl

mean-between_example : (m : ℤ) × (mean values ≡ ok (some m)) × (negsuc 1 ≤ℤ m) × (m ≤ℤ pos 5)
unfolding is_i64
mean-between_example =
    mean-between (negsuc 1) (pos 5) (pos 3) (negsuc 1 ∷ pos 5 ∷ pos 2 ∷ []) refl refl (
      omega arith,
      omega arith,
      (omega arith, omega arith, (omega arith, omega arith, (omega arith, omega arith, tt))),
    )

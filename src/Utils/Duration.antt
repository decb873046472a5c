-- ===== src/Utils/Duration.antt =====
-- `DisplayDuration` and `DisplayLargeDuration` of src/utils.rs: the value that is shown, and which unit stands behind it.
pub mod Exact
use ros2trace_analyzer.Common.{
  ℕ, suc, ◌+◌, ◌%◌, ◌/◌, ℤ, pos, negsuc, div_ℤ, Bool, ◌==◌, List, [], ◌∷◌, if◌then◌else◌,
}

-- From one unit to the next: ns, μs, ms, s, min, h.
abbrev pub factors : List ℕ
factors = 1000 ∷ 1000 ∷ 1000 ∷ 60 ∷ 60 ∷ []

-- `value % factor == 0`.
abbrev pub divides : ℕ → ℤ → Bool
divides factor (pos a) = a % factor == 0
divides factor (negsuc a) = suc a % factor == 0

-- The loop, over the factors that are left; the second number is the index of the unit.
unfoldable pub scale : List ℕ → ℤ → ℕ → ℤ × ℕ
scale [] value suffix = (value, suffix)
scale (factor ∷ left) value suffix =
    if divides factor value then scale left (div_ℤ value factor) (suffix + 1) else (value, suffix)

unfoldable pub display_duration : ℤ → ℤ × ℕ
unfolding scale
display_duration value = scale factors value 0

unfoldable pub scale_large : List ℕ → ℕ → ℕ → ℕ × ℕ
scale_large [] value suffix = (value, suffix)
scale_large (factor ∷ left) value suffix =
    if value % factor == 0 then scale_large left (value / factor) (suffix + 1) else (value, suffix)

unfoldable pub display_large_duration : ℕ → ℕ × ℕ
unfolding scale_large
display_large_duration value = scale_large factors value 0

-- ===== src/Utils/Tests.antt =====
-- A duration of one and a half seconds is shown as 1500 ms.
use ros2trace_analyzer.Common.{pos, div_ℤ, ◌≡◌, refl}
use ros2trace_analyzer.Utils.Duration.{factors, scale, display_duration}
use ros2trace_analyzer.Utils.Duration.Exact.{IsTimes, product, display_duration-IsTimes}

one_and_a_half_seconds : display_duration (pos 1500000000) ≡ (pos 1500, 2)
unfolding display_duration scale div_ℤ
one_and_a_half_seconds = refl

display_duration-IsTimes_example :
    IsTimes
      (display_duration (pos 1500000000)).0
      (product (display_duration (pos 1500000000)).1 factors)
      (pos 1500000000)
display_duration-IsTimes_example = display_duration-IsTimes (pos 1500000000)

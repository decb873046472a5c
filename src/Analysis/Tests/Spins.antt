-- ===== src/Analysis/Tests/Spins.antt =====
-- A spin that starts at 4, wakes up at 5 and ends at 9.
use ros2trace_analyzer.Common.{pos, ◌-ℤ◌, is_i64, [], ◌∷◌, some, ok, ◌≡◌, refl}
use ros2trace_analyzer.Processor.Exec.{Returns}
use ros2trace_analyzer.Processor.Spins.{process_spin_wake, process_spin_end}
use ros2trace_analyzer.Processor.Tests.Data.{steps, here, with_node, with_spin, spin_event}
use ros2trace_analyzer.Analysis.Table.{push, ref_key}
use ros2trace_analyzer.Analysis.SpinDuration
use ros2trace_analyzer.Analysis.SpinDuration.{SpinDuration}
use ros2trace_analyzer.Analysis.SpinDuration.Measured.{spin_start-measured}

abbrev measured_before : SpinDuration
measured_before = record { processing_durations = (0, pos 3 ∷ []) ∷ [] }

spin_start-measured_example :
    Returns (process_spin_wake (record { node_handle = 10 }) (pos 5) here with_spin) (λ woken w''.
      Returns (process_spin_end (record { node_handle = 10 }) (pos 9) here w'') (λ ended w₃.
        (ended ≡ (0, some 0))
        × (SpinDuration.process_spin_end w₃ (record { node = 0; spin = ended.1 }) measured_before
            ≡ ok (record {
              processing_durations = push 0 (pos 9 -ℤ pos 5) measured_before.processing_durations;
            }))))
unfolding steps is_i64 ◌-ℤ◌
spin_start-measured_example =
    spin_start-measured spin_event (record { node_handle = 10 }) (record { node_handle = 10 })
      (pos 4) (pos 5) (pos 9) here with_node measured_before {n = 0} {s = 0} {w' = with_spin} refl
      refl refl refl

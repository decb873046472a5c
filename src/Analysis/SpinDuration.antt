-- ===== src/Analysis/SpinDuration.antt =====
-- src/analysis/spin_duration.rs: how long the executor of a node worked in each spin, from its wake-up to
-- its end.
pub mod Measured
use ros2trace_analyzer.Common.{ℤ, Ref, List, [], Result, ok}
use ros2trace_analyzer.Utils.Known.{into_option}
use ros2trace_analyzer.Events.Processed
use ros2trace_analyzer.Processor.State.{World}
use ros2trace_analyzer.Analysis.Base.{◌>>=◌, expect, lock, sub_times}
use ros2trace_analyzer.Analysis.Table.{Table, push, ref_key}

pub record SpinDuration : Type 0 where
  pub processing_durations : Table Ref (List ℤ)

abbrev pub initialize : SpinDuration → SpinDuration
initialize s = record s { processing_durations = [] }

unfoldable pub process_spin_end : World → Processed.R2r.SpinEnd → SpinDuration → Result SpinDuration
process_spin_end w event s = do
  spin_arc ← expect event.spin
  spin ← lock w.spins spin_arc
  start_time ← expect (into_option spin.wake_time)
  end_time ← expect (into_option spin.end_time)
  duration ← sub_times end_time start_time
  ok (record s { processing_durations = push event.node duration s.processing_durations })

unfoldable pub process_event : World → Processed.FullEvent → SpinDuration → Result SpinDuration
process_event w full_event s = elim full_event.event [
  | Processed.r2r (Processed.R2r.spin_end event) ↦ process_spin_end w event s
  | _ ↦ ok s
]

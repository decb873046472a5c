-- ===== src/Analysis/SpinDuration/Measured.antt =====
-- A spin from its start to the duration that src/analysis/spin_duration.rs records, through the handlers of
-- src/processor/r2r.rs.
use ros2trace_analyzer.Common.{◌-ℤ◌, is_i64, ◌≡◌, Ref, true, some, ok, arith}
use ros2trace_analyzer.Utils.Known.{is_unknown, into_option}
use ros2trace_analyzer.Model.PublicationMessage.{Time}
use ros2trace_analyzer.Model.Node
use ros2trace_analyzer.Model.SpinInstance
use ros2trace_analyzer.Events.Raw.R2r.{SpinStart, SpinEnd, SpinWake}
use ros2trace_analyzer.Processor.Id.{ContextId}
use ros2trace_analyzer.Processor.State.{World}
use ros2trace_analyzer.Processor.Exec.{done, actions, Returns}
use ros2trace_analyzer.Processor.Spins.{
  node_of_spin, inspect_spin, process_spin_start, process_spin_end, process_spin_wake,
}
use ros2trace_analyzer.Processor.Spins.Lifecycle.{spin_start-starts}
use ros2trace_analyzer.Analysis.Table.{push, ref_key}
use ros2trace_analyzer.Analysis.SpinDuration
use ros2trace_analyzer.Analysis.SpinDuration.{SpinDuration}

-- Where a spin was started, wakes up and then ends, at a time that fits, both handlers return, and the analysis adds
-- the time from the wake-up to the end to the durations of the node of the spin.
pub spin_start-measured :
    (e : SpinStart) (e' : SpinWake) (e'' : SpinEnd) (t t' t'' : Time) (c : ContextId) (w : World)
    (d : SpinDuration) {n s : Ref} {w' : World}
    → process_spin_start e t c w ≡ done (n, s) w'
    → e'.node_handle ≡ e.node_handle
    → e''.node_handle ≡ e.node_handle
    → is_i64 (t'' -ℤ t') ≡ true
    → Returns (process_spin_wake e' t' c w') (λ woken w''.
      Returns (process_spin_end e'' t'' c w'') (λ ended w₃.
        (ended ≡ (n, some s))
        × (SpinDuration.process_spin_end w₃ (record { node = n; spin = ended.1 }) d
            ≡ ok (record { processing_durations = push n (t'' -ℤ t') d.processing_durations }))))
unfolding process_spin_wake process_spin_end inspect_spin node_of_spin actions
    SpinInstance.set_wake_time SpinInstance.set_end_time Node.take_spin_instance is_unknown
    into_option SpinDuration.process_spin_end
spin_start-measured e e' e'' t t' t'' c w d h wakes ends fits =
    ground (arith, spin_start-starts e t c w h)

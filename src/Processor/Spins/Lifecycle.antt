-- ===== src/Processor/Spins/Lifecycle.antt =====
-- The life of a spin of an executor: `process_spin_start`, `process_spin_wake`,
-- `process_spin_timeout` and `process_spin_end` of src/processor/r2r.rs.
use ros2trace_analyzer.Common.{◌≡◌, Ref, true, none, some, panic, ◌+◌, ◌*◌, arith}
use ros2trace_analyzer.Utils.Known.{known, unknown, is_unknown}
use ros2trace_analyzer.Model.PublicationMessage.{Time}
use ros2trace_analyzer.Model.Node
use ros2trace_analyzer.Model.SpinInstance
use ros2trace_analyzer.Events.Raw.R2r.{SpinStart, SpinEnd, SpinWake, SpinTimeout}
use ros2trace_analyzer.Processor.Id.{ContextId, into_id}
use ros2trace_analyzer.Processor.State.{World}
use ros2trace_analyzer.Processor.Exec.{done, faulted, actions, Shows, Returns}
use ros2trace_analyzer.Processor.Spins.{
  duration_new, node_of_spin, inspect_spin, process_spin_start, process_spin_end, process_spin_wake,
  process_spin_timeout,
}

-- When `process_spin_start` returns, the node of the event runs the spin that it returns, which
-- started at the time of the event, has the timeout of the event in nanoseconds, and has neither
-- woken, ended nor timed out.
pub spin_start-starts :
    (e : SpinStart) (t : Time) (c : ContextId) (w : World) {n s : Ref} {w' : World}
    → process_spin_start e t c w ≡ done (n, s) w'
    → (w'.nodes_by_rcl (into_id e.node_handle c) ≡ some n)
      × Shows (w'.nodes.cell n) (λ node. node.spin_instance ≡ some s)
      × Shows (w'.spins.cell s) (λ spin.
        (spin.start_time ≡ t)
        × (spin.timeout ≡ e.timeout_s * 1_000_000_000 + e.timeout_ns)
        × (spin.wake_time ≡ unknown)
        × (spin.end_time ≡ unknown)
        × (spin.timeouted ≡ unknown))
unfolding process_spin_start node_of_spin duration_new actions Node.replace_spin_instance
    SpinInstance.new
spin_start-starts e t c w h = ground arith

-- A spin that was started and then ends returns the spin of the start, with the times of both
-- events, and the node runs no spin any more.
pub spin_start-end :
    (e : SpinStart) (e' : SpinEnd) (t t' : Time) (c : ContextId) (w : World) {n s : Ref}
    {w' : World}
    → process_spin_start e t c w ≡ done (n, s) w'
    → e'.node_handle ≡ e.node_handle
    → Returns (process_spin_end e' t' c w') (λ ended w''.
      (ended ≡ (n, some s))
      × Shows (w''.spins.cell s) (λ spin. (spin.start_time ≡ t) × (spin.end_time ≡ known t'))
      × Shows (w''.nodes.cell n) (λ node. node.spin_instance ≡ none))
unfolding process_spin_end inspect_spin node_of_spin actions Node.take_spin_instance
    SpinInstance.set_end_time is_unknown
spin_start-end e e' t t' c w h same = ground (arith, spin_start-starts e t c w h)

-- A spin that was started and then wakes up keeps running, with its wake time set to that of the
-- event; a second wake-up of the same spin panics.
pub spin_start-wake :
    (e : SpinStart) (e' e'' : SpinWake) (t t' t'' : Time) (c : ContextId) (w : World) {n s : Ref}
    {w' : World}
    → process_spin_start e t c w ≡ done (n, s) w'
    → e'.node_handle ≡ e.node_handle
    → e''.node_handle ≡ e.node_handle
    → Returns (process_spin_wake e' t' c w') (λ woken w''.
      (woken ≡ (n, some s))
      × Shows (w''.spins.cell s) (λ spin. (spin.start_time ≡ t) × (spin.wake_time ≡ known t'))
      × Shows (w''.nodes.cell n) (λ node. node.spin_instance ≡ some s)
      × (process_spin_wake e'' t'' c w'' ≡ faulted panic))
unfolding process_spin_wake inspect_spin node_of_spin actions SpinInstance.set_wake_time is_unknown
spin_start-wake e e' e'' t t' t'' c w h same again = ground (arith, spin_start-starts e t c w h)

-- A spin that was started and then times out has waited until the time of the event and has not
-- ended, and the node runs no spin any more: a spin end that follows returns no spin.
pub spin_start-timeout :
    (e : SpinStart) (e' : SpinTimeout) (e'' : SpinEnd) (t t' t'' : Time) (c : ContextId) (w : World)
    {n s : Ref} {w' : World}
    → process_spin_start e t c w ≡ done (n, s) w'
    → e'.node_handle ≡ e.node_handle
    → e''.node_handle ≡ e.node_handle
    → Returns (process_spin_timeout e' t' c w') (λ timed w''.
      (timed ≡ (n, some s))
      × Shows (w''.spins.cell s) (λ spin.
        (spin.start_time ≡ t)
        × (spin.wake_time ≡ known t')
        × (spin.end_time ≡ unknown)
        × (spin.timeouted ≡ known true))
      × Returns (process_spin_end e'' t'' c w'') (λ ended w₃. ended ≡ (n, none)))
unfolding process_spin_timeout process_spin_end inspect_spin node_of_spin actions
    Node.take_spin_instance SpinInstance.set_timeouted_on is_unknown
spin_start-timeout e e' e'' t t' t'' c w h same again = ground (arith, spin_start-starts e t c w h)

-- ===== src/Processor/Spins.antt =====
-- src/processor/r2r.rs: the spins of the executor of an R2R node.
pub mod Lifecycle
use ros2trace_analyzer.Common.{
  ℕ, Ref, Option, none, some, ◌+◌, ◌*◌, ◌/◌, ◌^◌, ltb, Result, ok, fault, panic, ObjectType,
  if◌then◌else◌,
}
use ros2trace_analyzer.Model.PublicationMessage.{Time}
use ros2trace_analyzer.Model.Node
use ros2trace_analyzer.Model.SpinInstance
use ros2trace_analyzer.Model.SpinInstance.{SpinInstance, Duration}
use ros2trace_analyzer.Events.Raw.R2r.{SpinStart, SpinEnd, SpinWake, SpinTimeout, UpdateTime}
use ros2trace_analyzer.Processor.Id.{ContextId, into_id}
use ros2trace_analyzer.Processor.Exec.{
  M, ◌>>=◌, ◌>>◌, pure, lift, get_or_err, alloc, load, store, call,
}
use ros2trace_analyzer.Processor.Fields

-- `std::time::Duration::new` carries the nanoseconds over into the seconds, and panics where these
-- overflow a `u64`.
unfoldable pub duration_new : ℕ → ℕ → Result Duration
duration_new secs nanos =
    if ltb (secs + nanos / 1_000_000_000) (2 ^ 64)
    then ok (secs * 1_000_000_000 + nanos)
    else fault panic

unfoldable pub node_of_spin : ℕ → ContextId → M Ref
node_of_spin node_handle context_id =
    get_or_err Fields.nodes_by_rcl (into_id node_handle context_id) "rcl_handle" ObjectType.node

-- `.inspect(|spin_arc| ..)` with a method of the spin.
unfoldable pub inspect_spin : (SpinInstance → Result SpinInstance) → Option Ref → M (Unit {0})
inspect_spin method none = pure tt
inspect_spin method (some spin_arc) = call Fields.spins spin_arc method

unfoldable pub process_spin_start : SpinStart → Time → ContextId → M (Ref × Ref)
process_spin_start event time context_id = do
  timeout ← lift (duration_new event.timeout_s event.timeout_ns)
  node_arc ← node_of_spin event.node_handle context_id
  spin_instance ← alloc Fields.spins (SpinInstance.new node_arc time timeout)
  node ← load Fields.nodes node_arc
  store Fields.nodes node_arc (Node.replace_spin_instance spin_instance node).0
  pure (node_arc, spin_instance)

unfoldable pub process_spin_end : SpinEnd → Time → ContextId → M (Ref × Option Ref)
process_spin_end event time context_id = do
  node_arc ← node_of_spin event.node_handle context_id
  node ← load Fields.nodes node_arc
  let taken = Node.take_spin_instance node
  store Fields.nodes node_arc taken.0
  inspect_spin (SpinInstance.set_end_time time) taken.1
  pure (node_arc, taken.1)

unfoldable pub process_spin_wake : SpinWake → Time → ContextId → M (Ref × Option Ref)
process_spin_wake event time context_id = do
  node_arc ← node_of_spin event.node_handle context_id
  node ← load Fields.nodes node_arc
  inspect_spin (SpinInstance.set_wake_time time) node.spin_instance
  pure (node_arc, node.spin_instance)

unfoldable pub process_spin_timeout : SpinTimeout → Time → ContextId → M (Ref × Option Ref)
process_spin_timeout event time context_id = do
  node_arc ← node_of_spin event.node_handle context_id
  node ← load Fields.nodes node_arc
  let taken = Node.take_spin_instance node
  store Fields.nodes node_arc taken.0
  inspect_spin (SpinInstance.set_timeouted_on time) taken.1
  pure (node_arc, taken.1)

unfoldable pub process_update_time : UpdateTime → ContextId → M Ref
process_update_time event context_id =
    get_or_err Fields.subscribers_by_rcl (into_id event.subscriber context_id) "rcl_handle"
      ObjectType.subscriber

-- ===== src/Processor/Invariants/Objects/Callbacks.antt =====
-- The handlers for callbacks keep the objects consistent.
use ros2trace_analyzer.Common.{Ref, Option, none, some}
use ros2trace_analyzer.Model.Callback.{CallbackCaller}
use ros2trace_analyzer.Model.Callback.Consistency as CallbackConsistency
use ros2trace_analyzer.Model.PublicationMessage.{Time}
use ros2trace_analyzer.Model.Subscriber.Consistency as SubscriberConsistency
use ros2trace_analyzer.Events.Raw.Ros2.{RclcppCallbackRegister, CallbackStart, CallbackEnd}
use ros2trace_analyzer.Processor.Id.{HandleId, ContextId}
use ros2trace_analyzer.Processor.Exec.Keeps.{Keeps, keeps_rules}
use ros2trace_analyzer.Processor.Exec.Objects.{object_rules}
use ros2trace_analyzer.Processor.Callers.{Liveness}
use ros2trace_analyzer.Processor.Callbacks.{
  get_callback_by_id, process_rclcpp_callback_register, trigger_of, assert_idle, new_instance,
  process_callback_start, process_callback_end,
}
use ros2trace_analyzer.Processor.Invariants.Objects.Defs.{ObjectsAreConsistent as P, heaps}

ruleset rules = (
  object_rules, keeps_rules, heaps, CallbackConsistency.consistency,
  SubscriberConsistency.consistency,
)

get_callback-Keeps : (id : HandleId) → Keeps P (get_callback_by_id id)
unfolding get_callback_by_id
get_callback-Keeps id = search keeps_rules

pub process_rclcpp_callback_register-Keeps :
    (e : RclcppCallbackRegister) (c : ContextId) → Keeps P (process_rclcpp_callback_register e c)
unfolding process_rclcpp_callback_register
process_rclcpp_callback_register-Keeps e c = search (rules, get_callback-Keeps) depth 8

trigger_of-Keeps : (alive : Liveness) (caller : CallbackCaller) → Keeps P (trigger_of alive caller)
unfolding trigger_of
trigger_of-Keeps alive (CallbackCaller.subscription s) = search rules depth 12
trigger_of-Keeps alive (CallbackCaller.service s) = search keeps_rules
trigger_of-Keeps alive (CallbackCaller.timer t) = search keeps_rules

assert_idle-Keeps : (o : Option Ref) → Keeps P (assert_idle o)
unfolding assert_idle
assert_idle-Keeps none = search keeps_rules
assert_idle-Keeps (some r) = search keeps_rules

new_instance-Keeps : (alive : Liveness) (r : Ref) (t : Time) → Keeps P (new_instance alive r t)
unfolding new_instance
new_instance-Keeps alive r t = search (rules, trigger_of-Keeps, assert_idle-Keeps) depth 16

pub process_callback_start-Keeps :
    (alive : Liveness) (e : CallbackStart) (t : Time) (c : ContextId)
    → Keeps P (process_callback_start alive e t c)
unfolding process_callback_start
process_callback_start-Keeps alive e t c =
    search (keeps_rules, get_callback-Keeps, new_instance-Keeps)

pub process_callback_end-Keeps :
    (e : CallbackEnd) (t : Time) (c : ContextId) → Keeps P (process_callback_end e t c)
unfolding process_callback_end
process_callback_end-Keeps e t c = search (rules, get_callback-Keeps) depth 12

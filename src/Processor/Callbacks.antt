-- ===== src/Processor/Callbacks.antt =====
-- The handlers of src/processor/ros2.rs for callbacks, and `CallbackInstance::new` of
-- src/model/mod.rs.
pub mod Lifecycle
pub mod Trigger
use ros2trace_analyzer.Common.{Ref, Option, none, some, panic, ObjectType}
use ros2trace_analyzer.Utils.ArcWeak.{get_arc}
use ros2trace_analyzer.Utils.Known.{unknown, into_option}
use ros2trace_analyzer.Model.PublicationMessage.{Time}
use ros2trace_analyzer.Model.Subscriber
use ros2trace_analyzer.Model.Callback
use ros2trace_analyzer.Model.Callback.{Callback, CallbackCaller}
use ros2trace_analyzer.Model.CallbackInstance.{
  CallbackTrigger, subscription_message, service, timer, end_instance,
}
use ros2trace_analyzer.Events.Raw.Ros2.{RclcppCallbackRegister, CallbackStart, CallbackEnd}
use ros2trace_analyzer.Processor.Id.{HandleId, ContextId, into_id}
use ros2trace_analyzer.Processor.Exec.{
  M, ◌>>=◌, ◌>>◌, pure, raise_fault, expect_some, get_or_err, alloc, load, store, call, modify,
}
use ros2trace_analyzer.Processor.Callers.{Liveness}
use ros2trace_analyzer.Processor.Fields

unfoldable pub get_callback_by_id : HandleId → M Ref
get_callback_by_id id = get_or_err Fields.callbacks_by_id id "id" ObjectType.callback

unfoldable pub process_rclcpp_callback_register : RclcppCallbackRegister → ContextId → M Ref
process_rclcpp_callback_register event context_id = do
  callback_arc ← get_callback_by_id (into_id event.callback context_id)
  call Fields.callbacks callback_arc (Callback.set_name event.symbol)
  pure callback_arc

-- What started the callback: the oldest message that its subscriber has taken, its service or timer.
unfoldable pub trigger_of : Liveness → CallbackCaller → M CallbackTrigger
trigger_of alive (CallbackCaller.subscription caller) = do
  subscriber_arc ← expect_some (get_arc alive.subscriber caller)
  subscriber ← load Fields.subscribers subscriber_arc
  let taken = Subscriber.take_message subscriber
  store Fields.subscribers subscriber_arc taken.0
  message ← expect_some taken.1
  pure (subscription_message message)
trigger_of alive (CallbackCaller.service caller) = do
  service_arc ← expect_some (get_arc alive.service caller)
  pure (service service_arc)
trigger_of alive (CallbackCaller.timer caller) = do
  timer_arc ← expect_some (get_arc alive.timer caller)
  pure (timer timer_arc)

unfoldable pub assert_idle : Option Ref → M (Unit {0})
assert_idle none = pure tt
assert_idle (some running) = raise_fault panic

unfoldable pub new_instance : Liveness → Ref → Time → M Ref
new_instance alive callback_arc start_time = do
  callback ← load Fields.callbacks callback_arc
  assert_idle callback.running_instance
  caller ← expect_some (into_option callback.caller)
  trigger ← trigger_of alive caller
  new ← alloc Fields.instances (record {
    start_time = start_time;
    end_time = unknown;
    callback = callback_arc;
    trigger = trigger;
  })
  modify Fields.callbacks callback_arc (λ c. record c { running_instance = some new })
  pure new

unfoldable pub process_callback_start : Liveness → CallbackStart → Time → ContextId → M Ref
process_callback_start alive event time context_id = do
  callback_arc ← get_callback_by_id (into_id event.callback context_id)
  new_instance alive callback_arc time

unfoldable pub process_callback_end : CallbackEnd → Time → ContextId → M Ref
process_callback_end event time context_id = do
  callback_arc ← get_callback_by_id (into_id event.callback context_id)
  callback ← load Fields.callbacks callback_arc
  let taken = Callback.take_running_instance callback
  store Fields.callbacks callback_arc taken.0
  callback_instance ← expect_some taken.1
  call Fields.instances callback_instance (end_instance time)
  pure callback_instance

-- ===== src/Processor/Callbacks/Trigger.antt =====
-- What a callback of a subscription is started by: `CallbackInstance::new` of src/model/mod.rs takes
-- the message that the subscriber has held longest.
use ros2trace_analyzer.Common.{◌≡◌, Ref, true, List, [], ◌∷◌, none, some, panic, arith}
use ros2trace_analyzer.Utils.Known.{known, into_option}
use ros2trace_analyzer.Utils.ArcWeak.{weak, get_arc}
use ros2trace_analyzer.Model.PublicationMessage.{Time}
use ros2trace_analyzer.Model.Callback.{Callback, CallbackCaller}
use ros2trace_analyzer.Model.CallbackInstance.{subscription_message}
use ros2trace_analyzer.Model.Subscriber
use ros2trace_analyzer.Model.Subscriber.{Subscriber}
use ros2trace_analyzer.Events.Raw.Ros2.{CallbackStart}
use ros2trace_analyzer.Processor.Id.{ContextId, into_id}
use ros2trace_analyzer.Processor.State.{World}
use ros2trace_analyzer.Processor.Exec.{faulted, actions, Shows, Returns}
use ros2trace_analyzer.Processor.Callers.{Liveness}
use ros2trace_analyzer.Processor.Callbacks.{
  get_callback_by_id, trigger_of, assert_idle, new_instance, process_callback_start,
}

-- The handle of the event leads to an idle callback of a subscriber, which is still alive.
pub record IsReady (alive : Liveness) (e : CallbackStart) (c : ContextId) (w : World) (r s : Ref)
    (callback : Callback) (subscriber : Subscriber) : Type 0 where
  pub found : w.callbacks_by_id (into_id e.callback c) ≡ some r
  pub is_callback : w.callbacks.cell r ≡ some callback
  pub idle : callback.running_instance ≡ none
  pub caller : callback.caller ≡ known (CallbackCaller.subscription (weak s))
  pub reachable : alive.subscriber s ≡ true
  pub is_subscriber : w.subscribers.cell s ≡ some subscriber

-- The start of an idle callback of a subscriber returns, where the subscriber holds a message: the
-- instance is triggered by the message that it took first, and the others stay in its queue.
pub callback_start-takes_first :
    (alive : Liveness) (e : CallbackStart) (t : Time) (c : ContextId) (w : World) (r s : Ref)
    (callback : Callback) (subscriber : Subscriber) (m : Ref) (ms : List Ref)
    → IsReady alive e c w r s callback subscriber
    → subscriber.taken_message ≡ m ∷ ms
    → Returns (process_callback_start alive e t c w) (λ i w'.
      Shows (w'.instances.cell i) (λ instance. instance.trigger ≡ subscription_message m)
      × (w'.subscribers.cell s ≡ some (record subscriber { taken_message = ms })))
unfolding process_callback_start get_callback_by_id new_instance assert_idle trigger_of get_arc
    actions into_option Subscriber.take_message Subscriber.pop_front
callback_start-takes_first alive e t c w r s callback subscriber m ms ready held = ground (
  arith, ready.found, ready.is_callback, ready.idle, ready.caller, ready.reachable,
  ready.is_subscriber,
)

-- The start of an idle callback of a subscriber panics where the subscriber holds no message.
pub callback_start-no_message :
    (alive : Liveness) (e : CallbackStart) (t : Time) (c : ContextId) (w : World) (r s : Ref)
    (callback : Callback) (subscriber : Subscriber)
    → IsReady alive e c w r s callback subscriber
    → subscriber.taken_message ≡ []
    → process_callback_start alive e t c w ≡ faulted panic
unfolding process_callback_start get_callback_by_id new_instance assert_idle trigger_of get_arc
    actions into_option Subscriber.take_message Subscriber.pop_front
callback_start-no_message alive e t c w r s callback subscriber ready held = ground (
  arith, ready.found, ready.is_callback, ready.idle, ready.caller, ready.reachable,
  ready.is_subscriber,
)

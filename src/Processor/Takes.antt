-- ===== src/Processor/Takes.antt =====
-- The handlers of src/processor/ros2.rs for the taking of messages.
pub mod Matching
pub mod Layers
use ros2trace_analyzer.Common.{
  ℕ, ℤ, pos, String, Ref, Bool, true, false, Option, none, some, Result, int_eq, ObjectType,
  if◌then◌else◌,
}
use ros2trace_analyzer.Utils.Known.{Known, unknown}
use ros2trace_analyzer.Model.PublicationMessage.{Time}
use ros2trace_analyzer.Model.Subscriber
use ros2trace_analyzer.Model.Subscriber.{Subscriber}
use ros2trace_analyzer.Model.SubscriptionMessage
use ros2trace_analyzer.Model.SubscriptionMessage.{SubscriptionMessage}
use ros2trace_analyzer.Events.Raw.Ros2.{RmwTake, RclTake, RclcppTake}
use ros2trace_analyzer.Processor.Id.{ContextId, into_id}
use ros2trace_analyzer.Processor.Exec.{
  M, done, ◌>>=◌, ◌>>◌, pure, lift, expect, get, get_or_err, insert, alloc, load, store, attempt,
}
use ros2trace_analyzer.Processor.Fields

-- `.or_else(..)` between the two lookups.
unfoldable pub or_lookup : Option Ref → Option Ref → Option Ref
or_lookup (some r) other = some r
or_lookup none other = other

-- The published message with the timestamp and the topic, or with the timestamp and no known topic.
-- A timestamp of 0 is a missing one.
unfoldable pub find_published : ℤ → Known String → M (Option Ref)
find_published source_timestamp topic w =
    done
      (if int_eq source_timestamp (pos 0)
        then none
        else or_lookup (w.published_messages source_timestamp topic)
            (w.published_messages source_timestamp unknown))
      w

unfoldable pub take_message :
    RmwTake → Time → (subscriber : Ref) → Option Ref → Result SubscriptionMessage
take_message event time subscriber (some published_message) =
    SubscriptionMessage.rmw_take_matched subscriber published_message time
      (SubscriptionMessage.new event.message)
take_message event time subscriber none =
    SubscriptionMessage.rmw_take_unmatched subscriber event.source_timestamp time
      (SubscriptionMessage.new event.message)

unfoldable pub keep_taken :
    RmwTake → ContextId → (subscriber message_arc : Ref) → Bool → M (Unit {0})
keep_taken event context_id subscriber_arc message_arc false = pure tt
keep_taken event context_id subscriber_arc message_arc true = do
  subscriber ← load Fields.subscribers subscriber_arc
  (subscriber, dropped) ← lift (Subscriber.replace_taken_message message_arc subscriber)
  store Fields.subscribers subscriber_arc subscriber
  insert Fields.received_messages (into_id event.message context_id) message_arc
  pure tt

unfoldable pub process_rmw_take : RmwTake → Time → ContextId → M (Ref × Bool)
process_rmw_take event time context_id = do
  subscriber_arc ←
      get_or_err Fields.subscribers_by_rmw (into_id event.rmw_subscription_handle context_id)
        "rmw_handle" ObjectType.subscriber
  subscriber ← load Fields.subscribers subscriber_arc
  published ← find_published event.source_timestamp subscriber.topic_name
  message ← lift (take_message event time subscriber_arc published)
  message_arc ← alloc Fields.subscriptions message
  keep_taken event context_id subscriber_arc message_arc event.taken
  pure (message_arc, event.taken)

-- What `received_messages` has for the address, if the method can be carried out on it.
unfoldable pub take_received :
    (SubscriptionMessage → Result SubscriptionMessage) → Option Ref → M (Option Ref)
take_received method none = pure none
take_received method (some message_arc) = do
  taken ← attempt Fields.subscriptions message_arc method
  pure (if taken then some message_arc else none)

-- The message and whether it is new.
unfoldable pub received_or_new :
    (SubscriptionMessage → Result SubscriptionMessage) → ℕ → ContextId → Option Ref → M (Ref × Bool)
received_or_new method ptr context_id (some message_arc) = pure (message_arc, false)
received_or_new method ptr context_id none = do
  message ← expect (method (SubscriptionMessage.new ptr))
  message_arc ← alloc Fields.subscriptions message
  insert Fields.received_messages (into_id ptr context_id) message_arc
  pure (message_arc, true)

unfoldable pub process_rcl_take : RclTake → Time → ContextId → M (Ref × Bool)
process_rcl_take event time context_id = do
  found ← get Fields.received_messages (into_id event.message context_id)
  taken ← take_received (SubscriptionMessage.rcl_take time) found
  received_or_new (SubscriptionMessage.rcl_take time) event.message context_id taken

unfoldable pub process_rclcpp_take : RclcppTake → Time → ContextId → M (Ref × Bool)
process_rclcpp_take event time context_id = do
  found ← get Fields.received_messages (into_id event.message context_id)
  taken ← take_received (SubscriptionMessage.rclcpp_take time) found
  received_or_new (SubscriptionMessage.rclcpp_take time) event.message context_id taken

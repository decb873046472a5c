-- ===== src/Processor/Takes/Layers.antt =====
-- A taken message on its way through rmw, rcl and rclcpp: `process_rmw_take`, `process_rcl_take` and
-- `process_rclcpp_take` of src/processor/ros2.rs find it by its address.
use ros2trace_analyzer.Common.{
  ◌≡◌, ◌≤◌, Ref, true, false, some, [], ◌∷◌, ◌++◌, length, if◌then◌else◌, ==_refl, arith,
}
use ros2trace_analyzer.Utils.Known.{known, unknown, is_unknown}
use ros2trace_analyzer.Model.PublicationMessage.{Time}
use ros2trace_analyzer.Model.Subscriber
use ros2trace_analyzer.Model.Subscriber.{Subscriber, taken_messages_max}
use ros2trace_analyzer.Model.Subscriber.Queue.{latest, push_bounded-latest_of}
use ros2trace_analyzer.Model.SubscriptionMessage
use ros2trace_analyzer.Model.SubscriptionMessage.{SubscriptionMessage}
use ros2trace_analyzer.Events.Raw.Ros2.{RmwTake, RclTake}
use ros2trace_analyzer.Processor.Id.{ContextId, into_id, id_eq_refl}
use ros2trace_analyzer.Processor.State.{World}
use ros2trace_analyzer.Processor.Exec.{actions, Returns}
use ros2trace_analyzer.Processor.Takes.{
  or_lookup, find_published, take_message, keep_taken, process_rmw_take, take_received,
  received_or_new, process_rcl_take,
}

-- Where a subscriber is not removed, and its queue holds no more than eleven messages, `process_rmw_take` returns a
-- message for it. A message that was taken is found by its address from then on, and the queue of the subscriber holds
-- the last eleven of its messages, with the new one at its end; a message that was not taken changes neither.
pub rmw_take-takes :
    (e : RmwTake) (t : Time) (c : ContextId) (w : World) (s : Ref) (subscriber : Subscriber)
    → w.subscribers_by_rmw (into_id e.rmw_subscription_handle c) ≡ some s
    → w.subscribers.cell s ≡ some subscriber
    → subscriber.removed ≡ false
    → length subscriber.taken_message ≤ taken_messages_max
    → Returns (process_rmw_take e t c w) (λ p w'.
      (p.1 ≡ e.taken)
      × (w'.received_messages (into_id e.message c)
          ≡ (if e.taken then some p.0 else w.received_messages (into_id e.message c)))
      × (w'.subscribers.cell s
          ≡ some (record subscriber {
            taken_message =
                if e.taken
                then latest (subscriber.taken_message ++ p.0 ∷ [])
                else subscriber.taken_message;
          })))
unfolding process_rmw_take find_published or_lookup take_message keep_taken actions
    Subscriber.replace_taken_message SubscriptionMessage.new SubscriptionMessage.rmw_take_matched
    SubscriptionMessage.rmw_take_unmatched is_unknown
rmw_take-takes e t c w s subscriber found is_subscriber kept short = ground (
  arith,
  id_eq_refl (into_id e.message c),
  ==_refl s,
  push_bounded-latest_of w.subscriptions.next subscriber.taken_message,
)

-- `process_rcl_take` of a message that rmw took under the same address, and that rcl has not taken,
-- returns this message with the time of the event, as one that is not new.
pub rcl_take-joins :
    (e : RclTake) (t : Time) (c : ContextId) (w : World) (m : Ref) (message : SubscriptionMessage)
    → w.received_messages (into_id e.message c) ≡ some m
    → w.subscriptions.cell m ≡ some message
    → message.rcl_receive_time ≡ unknown
    → Returns (process_rcl_take e t c w) (λ p w'.
      (p ≡ (m, false))
      × (w'.subscriptions.cell m ≡ some (record message { rcl_receive_time = known t })))
unfolding process_rcl_take take_received received_or_new actions SubscriptionMessage.rcl_take
    is_unknown
rcl_take-joins e t c w m message found is_message no_time = ground (arith, ==_refl m)

-- `process_rcl_take` of an address whose message rcl has taken
-- already returns a new message with the time of the event, which takes the address over.
pub rcl_take-new :
    (e : RclTake) (t : Time) (c : ContextId) (w : World)
    → (m : Ref) (message : SubscriptionMessage) (earlier : Time)
    → w.received_messages (into_id e.message c) ≡ some m
    → w.subscriptions.cell m ≡ some message
    → message.rcl_receive_time ≡ known earlier
    → Returns (process_rcl_take e t c w) (λ p w'.
      (p.1 ≡ true)
      × (w'.received_messages (into_id e.message c) ≡ some p.0)
      × (w'.subscriptions.cell p.0
          ≡ some (record (SubscriptionMessage.new e.message) { rcl_receive_time = known t })))
unfolding process_rcl_take take_received received_or_new actions SubscriptionMessage.new
    SubscriptionMessage.rcl_take is_unknown
rcl_take-new e t c w m message earlier found is_message taken =
    ground (arith, id_eq_refl (into_id e.message c))

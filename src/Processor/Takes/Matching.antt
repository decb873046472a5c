-- ===== src/Processor/Takes/Matching.antt =====
-- Which publication a taken message belongs to: `process_rmw_take` of src/processor/ros2.rs.
use ros2trace_analyzer.Common.{
  ◌≡◌, ℤ, pos, String, Ref, Bool, false, none, some, int_eq, if◌then◌else◌, arith,
}
use ros2trace_analyzer.Utils.Known.{Known, known, unknown, is_unknown}
use ros2trace_analyzer.Model.PublicationMessage.{Time}
use ros2trace_analyzer.Model.SubscriptionMessage
use ros2trace_analyzer.Model.SubscriptionMessage.{PartiallyKnown, fully, partially}
use ros2trace_analyzer.Events.Raw.Ros2.{RmwTake}
use ros2trace_analyzer.Processor.Id.{ContextId, into_id}
use ros2trace_analyzer.Processor.State.{World}
use ros2trace_analyzer.Processor.Exec.{done, actions, Shows}
use ros2trace_analyzer.Processor.Takes.{
  or_lookup, find_published, take_message, keep_taken, process_rmw_take,
}

-- What a message with this source timestamp, taken on this topic, is known to be.
abbrev pub origin : World → ℤ → Known String → PartiallyKnown Ref Time
origin w timestamp topic =
    if int_eq timestamp (pos 0)
    then partially timestamp
    else elim (w.published_messages timestamp topic) [
      | some m ↦ fully m
      | none ↦ elim (w.published_messages timestamp unknown) [
        | some m ↦ fully m
        | none ↦ partially timestamp
      ]
    ]

-- When `process_rmw_take` returns, it returns a new message of the subscriber, received at the time
-- of the event. It is matched with the publication that has its source timestamp and the
-- subscriber's topic, or else with the one that has this timestamp and no known topic; without
-- either, and with timestamp 0, it has the timestamp only.
pub rmw_take-origin :
    (e : RmwTake) (t : Time) (c : ContextId) (w : World) {r : Ref} {taken : Bool} {w' : World}
    → process_rmw_take e t c w ≡ done (r, taken) w'
    → Shows (w.subscribers_by_rmw (into_id e.rmw_subscription_handle c)) (λ s.
      Shows (w.subscribers.cell s) (λ subscriber. Shows (w'.subscriptions.cell r) (λ message.
        (message.message ≡ origin w e.source_timestamp subscriber.topic_name)
        × (message.subscriber ≡ known s)
        × (message.rmw_receive_time ≡ known t))))
unfolding process_rmw_take find_published or_lookup take_message keep_taken actions
    SubscriptionMessage.new SubscriptionMessage.rmw_take_matched
    SubscriptionMessage.rmw_take_unmatched is_unknown
rmw_take-origin e t c w h = ground arith

-- A message that was not taken changes neither the messages found by address nor any subscriber.
pub rmw_take-not_taken :
    (e : RmwTake) (t : Time) (c : ContextId) (w : World) {r : Ref} {taken : Bool} {w' : World}
    → process_rmw_take e t c w ≡ done (r, taken) w'
    → e.taken ≡ false
    → (taken ≡ false)
      × (w'.received_messages ≡ w.received_messages)
      × (w'.subscribers ≡ w.subscribers)
unfolding process_rmw_take find_published or_lookup take_message keep_taken actions
    SubscriptionMessage.new SubscriptionMessage.rmw_take_matched
    SubscriptionMessage.rmw_take_unmatched is_unknown
rmw_take-not_taken e t c w h not_taken = ground arith

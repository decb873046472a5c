-- ===== src/Processor/Invariants/Objects/Takes.antt =====
-- The handlers for takes keep the objects consistent.
use ros2trace_analyzer.Common.{
  ℕ, ℤ, String, Ref, Bool, true, false, Option, none, some, ◌≡◌, Result, ok,
}
use ros2trace_analyzer.Utils.Known.{Known}
use ros2trace_analyzer.Model.Subscriber.Consistency as SubscriberConsistency
use ros2trace_analyzer.Model.PublicationMessage.{Time}
use ros2trace_analyzer.Model.SubscriptionMessage
use ros2trace_analyzer.Model.SubscriptionMessage.{SubscriptionMessage}
use ros2trace_analyzer.Model.SubscriptionMessage.Consistency.{
  IsConsistent, IsReceived, new-IsConsistent, rmw_take_matched-IsReceived,
  rmw_take_unmatched-IsReceived, rcl_take-IsReceived, rclcpp_take-IsReceived,
}
use ros2trace_analyzer.Events.Raw.Ros2.{RmwTake, RclTake, RclcppTake}
use ros2trace_analyzer.Processor.Id.{ContextId}
use ros2trace_analyzer.Processor.Exec.Keeps.{Keeps, keeps_rules}
use ros2trace_analyzer.Processor.Exec.Objects.{object_rules}
use ros2trace_analyzer.Processor.Takes.{
  find_published, take_message, keep_taken, process_rmw_take, take_received, received_or_new,
  process_rcl_take, process_rclcpp_take,
}
use ros2trace_analyzer.Processor.Invariants.Objects.Defs.{ObjectsAreConsistent as P, heaps}

ruleset rules = (object_rules, keeps_rules, heaps, SubscriberConsistency.consistency)

find_published-Keeps : (ts : ℤ) (topic : Known String) → Keeps P (find_published ts topic)
unfolding find_published
find_published-Keeps ts topic = record { at = λ w h. h }

take_message-Ok :
    (e : RmwTake) (t : Time) (s : Ref) (o : Option Ref) (m : SubscriptionMessage)
    → take_message e t s o ≡ ok m
    → IsReceived m
unfolding take_message
take_message-Ok e t s (some p) m h = rmw_take_matched-IsReceived s p t _ m h
take_message-Ok e t s none m h = rmw_take_unmatched-IsReceived s e.source_timestamp t _ m h

keep_taken-Keeps :
    (e : RmwTake) (c : ContextId) (s m : Ref) (b : Bool) → Keeps P (keep_taken e c s m b)
unfolding keep_taken
keep_taken-Keeps e c s m false = search keeps_rules
keep_taken-Keeps e c s m true = search rules depth 12

pub process_rmw_take-Keeps :
    (e : RmwTake) (t : Time) (c : ContextId) → Keeps P (process_rmw_take e t c)
unfolding process_rmw_take
process_rmw_take-Keeps e t c =
    search (rules, find_published-Keeps, take_message-Ok, keep_taken-Keeps) depth 16

-- A method that makes a consistent message a received one.
module _ (method : SubscriptionMessage → Result SubscriptionMessage)
    (receives : (m m' : SubscriptionMessage)
      → IsConsistent m
      → method m ≡ ok m'
      → IsReceived m') where
  keeps_IsReceived : (m m' : SubscriptionMessage) → IsReceived m → method m ≡ ok m' → IsReceived m'
  keeps_IsReceived m m' h e = receives m m' h.consistent e

  new-IsReceived :
      (ptr : ℕ) (m : SubscriptionMessage)
      → method (SubscriptionMessage.new ptr) ≡ ok m
      → IsReceived m
  new-IsReceived ptr m e = receives _ m (new-IsConsistent ptr) e

  take_received-Keeps : (o : Option Ref) → Keeps P (take_received method o)
  unfolding take_received
  take_received-Keeps none = search keeps_rules
  take_received-Keeps (some r) = search (rules, keeps_IsReceived) depth 8

  received_or_new-Keeps :
      (ptr : ℕ) (c : ContextId) (o : Option Ref) → Keeps P (received_or_new method ptr c o)
  unfolding received_or_new
  received_or_new-Keeps ptr c (some r) = search keeps_rules
  received_or_new-Keeps ptr c none = search (rules, new-IsReceived) depth 8

pub process_rcl_take-Keeps :
    (e : RclTake) (t : Time) (c : ContextId) → Keeps P (process_rcl_take e t c)
unfolding process_rcl_take
process_rcl_take-Keeps e t c = search (
  keeps_rules,
  take_received-Keeps _ (rcl_take-IsReceived t),
  received_or_new-Keeps _ (rcl_take-IsReceived t),
)

pub process_rclcpp_take-Keeps :
    (e : RclcppTake) (t : Time) (c : ContextId) → Keeps P (process_rclcpp_take e t c)
unfolding process_rclcpp_take
process_rclcpp_take-Keeps e t c = search (
  keeps_rules,
  take_received-Keeps _ (rclcpp_take-IsReceived t),
  received_or_new-Keeps _ (rclcpp_take-IsReceived t),
)

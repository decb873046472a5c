-- ===== src/Analysis/MessageLatency.antt =====
-- src/analysis/message_latency.rs: the time from the publication of a message to its receipt, for each pair
-- of a subscriber and a publisher.
pub mod Totals
use ros2trace_analyzer.Common.{
  ℤ, leb_ℤ, Ref, Bool, true, false, List, [], ◌∷◌, Option, none, some, Result, ok, err, fault,
  if◌then◌else◌,
}
use ros2trace_analyzer.Utils.Known.{into_option}
use ros2trace_analyzer.Model.PublicationMessage.{Time, get_publication_time}
use ros2trace_analyzer.Model.SubscriptionMessage.{
  SubscriptionMessage, get_receive_time, get_publication_message, get_sender_timestamp,
}
use ros2trace_analyzer.Events.Processed
use ros2trace_analyzer.Processor.State.{World}
use ros2trace_analyzer.Analysis.Base.{◌>>=◌, ◌>>◌, assert, expect, lock, sub_times}
use ros2trace_analyzer.Analysis.Table.{
  Table, push, contains, add, delete, ref_key, pair_key, option_key,
}

-- A subscriber, and a publisher if it is known.
abbrev pub SubPubKey : Type 0
SubPubKey = Ref × Option Ref

pub record MessageLatency : Type 0 where
  pub messages : List Ref
  pub latencies : Table SubPubKey (List ℤ)

abbrev pub new : MessageLatency
new = record { messages = []; latencies = [] }

unfoldable pub add_message : Ref → MessageLatency → MessageLatency
add_message message s = record s { messages = add message s.messages }

-- When the message was sent, and by which publisher: its publication tells both, its source timestamp only
-- the time.
unfoldable pub send_time_and_publisher :
    World → Option Ref → Option Time → Result (Option Time × Option Ref)
send_time_and_publisher w (some publication) timestamp = do
  publication_message ← lock w.publications publication
  send_time ← expect (get_publication_time publication_message)
  ok (some send_time, into_option publication_message.publisher)
send_time_and_publisher w none (some timestamp) = ok (some timestamp, none)
send_time_and_publisher w none none = ok (none, none)

unfoldable pub latency_of : Time → Option Time → Result (Option ℤ)
latency_of receive_time none = ok none
latency_of receive_time (some send_time) = do
  assert (leb_ℤ send_time receive_time)
  latency ← sub_times receive_time send_time
  ok (some latency)

unfoldable pub calculate_latency_and_get_publisher :
    World → SubscriptionMessage → Result (Option ℤ × Option Ref)
unfolding send_time_and_publisher latency_of
calculate_latency_and_get_publisher w message = do
  receive_time ← expect (get_receive_time message)
  sent ← send_time_and_publisher w (get_publication_message message) (get_sender_timestamp message)
  latency ← latency_of receive_time sent.0
  ok (latency, sent.1)

-- A message without a subscriber belongs to no series.
unfoldable pub record_latency :
    Option Ref
    → Option ℤ × Option Ref
    → Table SubPubKey (List ℤ)
    → Result (Table SubPubKey (List ℤ))
record_latency none sent t = ok t
record_latency (some subscriber) sent t = do
  latency_ns ← expect sent.0
  ok (push (subscriber, sent.1) latency_ns t)

-- What `remove_message` and `remove_remaining_messages` do with a message that leaves the set.
unfoldable pub account : World → Ref → Table SubPubKey (List ℤ) → Result (Table SubPubKey (List ℤ))
unfolding calculate_latency_and_get_publisher record_latency
account w message_arc t = do
  message ← lock w.subscriptions message_arc
  sent ← calculate_latency_and_get_publisher w message
  record_latency (into_option message.subscriber) sent t

unfoldable pub remove_known : World → Ref → MessageLatency → Bool → Result MessageLatency
unfolding account
remove_known w message s false = ok s
remove_known w message s true = do
  latencies ← account w message s.latencies
  ok (record { messages = delete message s.messages; latencies = latencies })

unfoldable pub remove_message : World → Ref → MessageLatency → Result MessageLatency
unfolding remove_known
remove_message w message s = remove_known w message s (contains message s.messages)

unfoldable pub account_all :
    World → List Ref → Table SubPubKey (List ℤ) → Result (Table SubPubKey (List ℤ))
unfolding account
account_all w [] t = ok t
account_all w (message ∷ rest) t = do t' ← account w message t; account_all w rest t'

unfoldable pub remove_remaining_messages : World → MessageLatency → Result MessageLatency
unfolding account_all
remove_remaining_messages w s = do
  latencies ← account_all w s.messages s.latencies
  ok (record { messages = []; latencies = latencies })

-- A message is added where it is new, and asserted to be there otherwise.
unfoldable pub add_or_assert : Ref → Bool → MessageLatency → Result MessageLatency
unfolding add_message
add_or_assert message true s = ok (add_message message s)
add_or_assert message false s = assert (contains message s.messages) >> ok s

unfoldable pub process_event : World → Processed.FullEvent → MessageLatency → Result MessageLatency
process_event w full_event s = elim full_event.event [
  | Processed.ros2 (Processed.Ros2.rmw_take event) ↦ ok (add_message event.message s)
  | Processed.ros2 (Processed.Ros2.rcl_take event) ↦ add_or_assert event.message event.is_new s
  | Processed.ros2 (Processed.Ros2.rclcpp_take event) ↦
      (add_or_assert event.message event.is_new s >>= λ s'. remove_message w event.message s')
  | _ ↦ ok s
]

abbrev pub finalize : World → MessageLatency → Result MessageLatency
finalize = remove_remaining_messages

-- ===== src/Model/SubscriptionMessage.antt =====
-- `PartiallyKnown` and `SubscriptionMessage` of src/model/mod.rs.
pub mod Consistency
use ros2trace_analyzer.Common.{
  ℕ, ℤ, Ref, Option, none, some, not, Result, ok, err, fault, panic, already_set, if◌then◌else◌,
}
use ros2trace_analyzer.Utils.Known.{Known, known, is_unknown, into_option}
use ros2trace_analyzer.Model.PublicationMessage.{Time, or_else}

pub data PartiallyKnown (A B : Type 0) : Type 0 where
  fully : A → PartiallyKnown A B
  partially : B → PartiallyKnown A B
  unknown : PartiallyKnown A B

pub record SubscriptionMessage : Type 0 where
  pub ptr : ℕ
  pub message : PartiallyKnown Ref Time
  pub subscriber : Known Ref
  pub rmw_receive_time : Known Time
  pub rcl_receive_time : Known Time
  pub rclcpp_receive_time : Known Time

unfoldable pub new : ℕ → SubscriptionMessage
new ptr = record {
  ptr = ptr;
  message = PartiallyKnown.unknown;
  subscriber = Known.unknown;
  rmw_receive_time = Known.unknown;
  rcl_receive_time = Known.unknown;
  rclcpp_receive_time = Known.unknown;
}

unfoldable pub rmw_take_matched :
    Ref → Ref → Time → SubscriptionMessage → Result SubscriptionMessage
unfolding is_unknown
rmw_take_matched subscriber published_message time m =
    if is_unknown m.subscriber
    then ok (record m {
      subscriber = known subscriber;
      message = fully published_message;
      rmw_receive_time = known time;
    })
    else fault panic

unfoldable pub rmw_take_unmatched :
    Ref → ℤ → Time → SubscriptionMessage → Result SubscriptionMessage
unfolding is_unknown
rmw_take_unmatched subscriber publication_time time m =
    if is_unknown m.subscriber
    then ok (record m {
      subscriber = known subscriber;
      message = partially publication_time;
      rmw_receive_time = known time;
    })
    else fault panic

unfoldable pub rcl_take : Time → SubscriptionMessage → Result SubscriptionMessage
unfolding is_unknown
rcl_take time m =
    if not (is_unknown m.rcl_receive_time)
    then err (already_set "SubscriptionMessage rcl_receive_time already set.")
    else ok (record m { rcl_receive_time = known time })

unfoldable pub rclcpp_take : Time → SubscriptionMessage → Result SubscriptionMessage
unfolding is_unknown
rclcpp_take time m =
    if not (is_unknown m.rclcpp_receive_time)
    then err (already_set "SubscriptionMessage rclcpp_receive_time already set.")
    else ok (record m { rclcpp_receive_time = known time })

unfoldable pub get_publication_message : SubscriptionMessage → Option Ref
get_publication_message m = elim m.message [ fully message ↦ some message | _ ↦ none ]

unfoldable pub get_sender_timestamp : SubscriptionMessage → Option Time
get_sender_timestamp m = elim m.message [ partially time ↦ some time | _ ↦ none ]

unfoldable pub get_receive_time : SubscriptionMessage → Option Time
unfolding or_else into_option
get_receive_time m =
    or_else (or_else (into_option m.rclcpp_receive_time) (into_option m.rcl_receive_time))
      (into_option m.rmw_receive_time)

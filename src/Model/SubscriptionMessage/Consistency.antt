-- ===== src/Model/SubscriptionMessage/Consistency.antt =====
-- What holds of every `SubscriptionMessage` that the processor builds, and the methods that keep it.
use ros2trace_analyzer.Common.{ℕ, ℤ, Ref, ◌≡◌, ◌≢◌, Bool, true, false, none, ok, arith}
use ros2trace_analyzer.Utils.Known.{is_unknown}
use ros2trace_analyzer.Model.PublicationMessage.{Time}
use ros2trace_analyzer.Model.SubscriptionMessage.{
  SubscriptionMessage, PartiallyKnown, new, rmw_take_matched, rmw_take_unmatched, rcl_take,
  rclcpp_take, get_receive_time,
}

abbrev pub is_unmatched : SubscriptionMessage → Bool
is_unmatched m = elim m.message [ PartiallyKnown.unknown ↦ true | _ ↦ false ]

-- The subscriber, the rmw time and the origin of the message are known together.
pub record IsConsistent (m : SubscriptionMessage) : Type 0 where
  pub time : is_unknown m.rmw_receive_time ≡ is_unknown m.subscriber
  pub origin : is_unmatched m ≡ is_unknown m.subscriber

-- Some receive time is known.
pub record IsReceived (m : SubscriptionMessage) : Type 0 where
  pub consistent : IsConsistent m
  pub received : get_receive_time m ≢ none

pub new-IsConsistent : (ptr : ℕ) → IsConsistent (new ptr)
unfolding new is_unknown
new-IsConsistent ptr = ground arith

pub rmw_take_matched-IsReceived :
    (s p : Ref) (t : Time) (m m' : SubscriptionMessage)
    → rmw_take_matched s p t m ≡ ok m'
    → IsReceived m'
unfolding rmw_take_matched is_unknown get_receive_time
rmw_take_matched-IsReceived s p t m m' e = ground arith

pub rmw_take_unmatched-IsReceived :
    (s : Ref) (ts : ℤ) (t : Time) (m m' : SubscriptionMessage)
    → rmw_take_unmatched s ts t m ≡ ok m'
    → IsReceived m'
unfolding rmw_take_unmatched is_unknown get_receive_time
rmw_take_unmatched-IsReceived s ts t m m' e = ground arith

pub rcl_take-IsReceived :
    (t : Time) (m m' : SubscriptionMessage) → IsConsistent m → rcl_take t m ≡ ok m' → IsReceived m'
unfolding rcl_take is_unknown get_receive_time
rcl_take-IsReceived t m m' c e = ground arith

pub rclcpp_take-IsReceived :
    (t : Time) (m m' : SubscriptionMessage)
    → IsConsistent m
    → rclcpp_take t m ≡ ok m'
    → IsReceived m'
unfolding rclcpp_take is_unknown get_receive_time
rclcpp_take-IsReceived t m m' c e = ground arith

-- ===== src/Model/PublicationMessage/Consistency.antt =====
-- What holds of every `PublicationMessage` that the processor builds, and the methods that keep it.
use ros2trace_analyzer.Common.{ℕ, ℤ, Ref, ◌≡◌, true, ok, arith}
use ros2trace_analyzer.Utils.Known.{is_unknown}
use ros2trace_analyzer.Model.PublicationMessage.{
  PublicationMessage, Time, new, set_publisher, replace_publisher, rclcpp_publish, rcl_publish,
  rmw_publish, rmw_publish_old,
}

-- A sender timestamp comes with the time of the rmw publication.
pub record IsConsistent (m : PublicationMessage) : Type 0 where
  pub timestamp : is_unknown m.rmw_publish_time ≡ true → is_unknown m.sender_timestamp ≡ true

pub new-IsConsistent : (ptr : ℕ) → IsConsistent (new ptr)
unfolding new is_unknown
new-IsConsistent ptr = ground arith

pub set_publisher-IsConsistent :
    (r : Ref) (m m' : PublicationMessage)
    → IsConsistent m
    → set_publisher r m ≡ ok m'
    → IsConsistent m'
unfolding set_publisher is_unknown
set_publisher-IsConsistent r m m' c e = ground arith

pub replace_publisher-IsConsistent :
    (r : Ref) (m : PublicationMessage) → IsConsistent m → IsConsistent (replace_publisher r m)
unfolding replace_publisher
replace_publisher-IsConsistent r m c = ground arith

pub rclcpp_publish-IsConsistent :
    (t : Time) (m m' : PublicationMessage)
    → IsConsistent m
    → rclcpp_publish t m ≡ ok m'
    → IsConsistent m'
unfolding rclcpp_publish is_unknown
rclcpp_publish-IsConsistent t m m' c e = ground arith

pub rcl_publish-IsConsistent :
    (t : Time) (m m' : PublicationMessage)
    → IsConsistent m
    → rcl_publish t m ≡ ok m'
    → IsConsistent m'
unfolding rcl_publish is_unknown
rcl_publish-IsConsistent t m m' c e = ground arith

pub rmw_publish-IsConsistent :
    (t : Time) (ts : ℤ) (m m' : PublicationMessage)
    → IsConsistent m
    → rmw_publish t ts m ≡ ok m'
    → IsConsistent m'
unfolding rmw_publish is_unknown
rmw_publish-IsConsistent t ts m m' c e = ground arith

pub rmw_publish_old-IsConsistent :
    (t : Time) (m m' : PublicationMessage)
    → IsConsistent m
    → rmw_publish_old t m ≡ ok m'
    → IsConsistent m'
unfolding rmw_publish_old is_unknown
rmw_publish_old-IsConsistent t m m' c e = ground arith

pub ruleset consistency = (
  new-IsConsistent, set_publisher-IsConsistent, replace_publisher-IsConsistent,
  rclcpp_publish-IsConsistent, rcl_publish-IsConsistent, rmw_publish-IsConsistent,
  rmw_publish_old-IsConsistent,
)

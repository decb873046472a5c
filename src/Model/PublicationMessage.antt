-- ===== src/Model/PublicationMessage.antt =====
-- `PublicationMessage` of src/model/mod.rs. The setters assert that a value was not set before.
pub mod Consistency
use ros2trace_analyzer.Common.{
  ℕ, ℤ, Ref, Option, none, some, ◌&&◌, Result, ok, fault, panic, if◌then◌else◌,
}
use ros2trace_analyzer.Utils.Known.{Known, known, unknown, is_unknown, into_option}

-- Nanoseconds since the UNIX epoch.
abbrev pub Time : Type 0
Time = ℤ

pub record PublicationMessage : Type 0 where
  pub ptr : ℕ
  pub publisher : Known Ref
  pub sender_timestamp : Known Time
  pub rmw_publish_time : Known Time
  pub rcl_publish_time : Known Time
  pub rclcpp_publish_time : Known Time

unfoldable pub new : ℕ → PublicationMessage
new message = record {
  ptr = message;
  publisher = unknown;
  sender_timestamp = unknown;
  rmw_publish_time = unknown;
  rcl_publish_time = unknown;
  rclcpp_publish_time = unknown;
}

unfoldable pub set_publisher : Ref → PublicationMessage → Result PublicationMessage
unfolding is_unknown
set_publisher publisher m =
    if is_unknown m.publisher then ok (record m { publisher = known publisher }) else fault panic

unfoldable pub replace_publisher : Ref → PublicationMessage → PublicationMessage
replace_publisher publisher m = record m { publisher = known publisher }

unfoldable pub rclcpp_publish : Time → PublicationMessage → Result PublicationMessage
unfolding is_unknown
rclcpp_publish time m =
    if is_unknown m.rclcpp_publish_time
    then ok (record m { rclcpp_publish_time = known time })
    else fault panic

unfoldable pub rcl_publish : Time → PublicationMessage → Result PublicationMessage
unfolding is_unknown
rcl_publish time m =
    if is_unknown m.rcl_publish_time
    then ok (record m { rcl_publish_time = known time })
    else fault panic

unfoldable pub rmw_publish : Time → ℤ → PublicationMessage → Result PublicationMessage
unfolding is_unknown
rmw_publish time timestamp m =
    if is_unknown m.rmw_publish_time && is_unknown m.sender_timestamp
    then ok (record m { rmw_publish_time = known time; sender_timestamp = known timestamp })
    else fault panic

unfoldable pub rmw_publish_old : Time → PublicationMessage → Result PublicationMessage
unfolding is_unknown
rmw_publish_old time m =
    if is_unknown m.rmw_publish_time
    then ok (record m { rmw_publish_time = known time })
    else fault panic

unfoldable pub or_else : Option Time → Option Time → Option Time
or_else (some t) other = some t
or_else none other = other

unfoldable pub get_publication_time : PublicationMessage → Option Time
unfolding or_else into_option
get_publication_time m =
    or_else (or_else (into_option m.rclcpp_publish_time) (into_option m.rcl_publish_time))
      (into_option m.rmw_publish_time)

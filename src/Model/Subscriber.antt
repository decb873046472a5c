-- ===== src/Model/Subscriber.antt =====
-- `Subscriber` of src/model/mod.rs. A method that asserts that the subscriber is not removed faults
-- where it is; a method that returns `Err` leaves the subscriber as it was.
pub mod Consistency
pub mod Queue
use ros2trace_analyzer.Common.{
  ℕ, String, Ref, Bool, false, Option, none, some, List, [], ◌∷◌, ◌++◌, ◌&&◌, length, leb, ◌==◌,
  Result, ok, err, fault, panic, already_initialized, already_set, if◌then◌else◌,
}
use ros2trace_analyzer.Utils.ArcWeak.{ArcWeak}
use ros2trace_analyzer.Utils.Known.{Known, known, unknown, is_unknown, is_unknown_or_eq}
use ros2trace_analyzer.Model.Gid
use ros2trace_analyzer.Model.Gid.{RmwGid, gid_eq}

pub record Subscriber : Type 0 where
  pub rmw_handle : Known ℕ
  pub rcl_handle : Known ℕ
  pub rclcpp_handle : Known ℕ
  pub rmw_gid : Known RmwGid
  pub topic_name : Known String
  pub node : Known ArcWeak
  pub queue_depth : Known ℕ
  pub callback : Known Ref
  pub taken_message : List Ref
  pub removed : Bool

abbrev pub default : Subscriber
default = record {
  rmw_handle = unknown;
  rcl_handle = unknown;
  rclcpp_handle = unknown;
  rmw_gid = unknown;
  topic_name = unknown;
  node = unknown;
  queue_depth = unknown;
  callback = unknown;
  taken_message = [];
  removed = false;
}

abbrev pub taken_messages_max : ℕ
taken_messages_max = 11

unfoldable pub rmw_init : ℕ → List ℕ → Subscriber → Result Subscriber
unfolding is_unknown_or_eq
rmw_init rmw_handle gid s =
    if s.removed
    then fault panic
    else if is_unknown_or_eq ◌==◌ s.rmw_handle rmw_handle
        && is_unknown_or_eq gid_eq s.rmw_gid (Gid.new gid)
    then ok (record s { rmw_handle = known rmw_handle; rmw_gid = known (Gid.new gid) })
    else err (already_initialized "Subscriber" "rmw_init_subscription")

unfoldable pub rcl_init : ℕ → String → ℕ → ArcWeak → Subscriber → Result Subscriber
unfolding is_unknown
rcl_init rcl_handle topic_name queue_depth node s =
    if s.removed
    then fault panic
    else if is_unknown s.rcl_handle
    then ok (record s {
      rcl_handle = known rcl_handle;
      topic_name = known topic_name;
      queue_depth = known queue_depth;
      node = known node;
    })
    else err (already_initialized "Subscriber" "rcl_subscription_init")

unfoldable pub rclcpp_init : ℕ → Subscriber → Result Subscriber
unfolding is_unknown
rclcpp_init rclcpp_handle s =
    if s.removed
    then fault panic
    else if is_unknown s.rclcpp_handle
    then ok (record s { rclcpp_handle = known rclcpp_handle })
    else err (already_initialized "Subscriber" "rclcpp_subscription_init")

unfoldable pub set_rmw_handle : ℕ → Subscriber → Result Subscriber
unfolding is_unknown_or_eq
set_rmw_handle rmw_subscription_handle s =
    if s.removed
    then fault panic
    else if is_unknown_or_eq ◌==◌ s.rmw_handle rmw_subscription_handle
    then ok (record s { rmw_handle = known rmw_subscription_handle })
    else err (already_set "rmw_handle already set")

unfoldable pub set_callback : Ref → Subscriber → Result Subscriber
unfolding is_unknown
set_callback callback s =
    if s.removed
    then fault panic
    else if is_unknown s.callback
    then ok (record s { callback = known callback })
    else err (already_set "callback already set")

-- `VecDeque::pop_front`: what is left, and the front.
unfoldable pub pop_front : List Ref → List Ref × Option Ref
pop_front [] = ([], none)
pop_front (x ∷ xs) = (xs, some x)

-- The new queue, and the message that was dropped to make room.
unfoldable pub push_bounded : Ref → List Ref → List Ref × Option Ref
unfolding pop_front
push_bounded message q =
    let (kept, dropped) = if leb taken_messages_max (length q) then pop_front q else (q, none) in
    (kept ++ message ∷ [], dropped)

unfoldable pub replace_taken_message : Ref → Subscriber → Result (Subscriber × Option Ref)
unfolding push_bounded
replace_taken_message message s =
    if s.removed
    then fault panic
    else ok (
      record s { taken_message = (push_bounded message s.taken_message).0 },
      (push_bounded message s.taken_message).1,
    )

unfoldable pub take_message : Subscriber → Subscriber × Option Ref
unfolding pop_front
take_message s =
    (record s { taken_message = (pop_front s.taken_message).0 }, (pop_front s.taken_message).1)

unfoldable pub mark_removed : Subscriber → Subscriber
mark_removed s = record s { removed = Bool.true }

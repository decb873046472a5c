-- ===== src/Model/Publisher.antt =====
-- `Publisher` of src/model/mod.rs.
pub mod Consistency
use ros2trace_analyzer.Common.{
  ℕ, String, Bool, true, false, List, ◌&&◌, ◌==◌, Result, ok, err, fault, panic,
  already_initialized, already_set, if◌then◌else◌,
}
use ros2trace_analyzer.Utils.ArcWeak.{ArcWeak}
use ros2trace_analyzer.Utils.Known.{Known, known, unknown, is_unknown, is_unknown_or_eq}
use ros2trace_analyzer.Model.Gid
use ros2trace_analyzer.Model.Gid.{RmwGid, gid_eq}

pub record Publisher : Type 0 where
  pub rmw_handle : Known ℕ
  pub rcl_handle : Known ℕ
  pub rclcpp_handle : Known ℕ
  pub rmw_gid : Known RmwGid
  pub topic_name : Known String
  pub node : Known ArcWeak
  pub queue_depth : Known ℕ
  pub removed : Bool

abbrev pub default : Publisher
default = record {
  rmw_handle = unknown;
  rcl_handle = unknown;
  rclcpp_handle = unknown;
  rmw_gid = unknown;
  topic_name = unknown;
  node = unknown;
  queue_depth = unknown;
  removed = false;
}

unfoldable pub rmw_init : ℕ → List ℕ → Publisher → Result Publisher
unfolding is_unknown_or_eq
rmw_init rmw_handle gid p =
    if p.removed
    then fault panic
    else if is_unknown_or_eq ◌==◌ p.rmw_handle rmw_handle
        && is_unknown_or_eq gid_eq p.rmw_gid (Gid.new gid)
    then ok (record p { rmw_handle = known rmw_handle; rmw_gid = known (Gid.new gid) })
    else err (already_initialized "Publisher" "rmw_init_publisher")

unfoldable pub rcl_init : ℕ → String → ℕ → ArcWeak → Publisher → Result Publisher
unfolding is_unknown
rcl_init rcl_handle topic_name queue_depth node p =
    if p.removed
    then fault panic
    else if is_unknown p.rcl_handle
    then ok (record p {
      rcl_handle = known rcl_handle;
      topic_name = known topic_name;
      queue_depth = known queue_depth;
      node = known node;
    })
    else err (already_initialized "Publisher" "rcl_publisher_init")

unfoldable pub set_rmw_handle : ℕ → Publisher → Result Publisher
unfolding is_unknown_or_eq
set_rmw_handle rmw_publisher_handle p =
    if p.removed
    then fault panic
    else if is_unknown_or_eq ◌==◌ p.rmw_handle rmw_publisher_handle
    then ok (record p { rmw_handle = known rmw_publisher_handle })
    else err (already_set "rmw_handle already set")

unfoldable pub set_rcl_handle : ℕ → Publisher → Result Publisher
unfolding is_unknown_or_eq
set_rcl_handle rcl_publisher_handle p =
    if p.removed
    then fault panic
    else if is_unknown_or_eq ◌==◌ p.rcl_handle rcl_publisher_handle
    then ok (record p { rcl_handle = known rcl_publisher_handle })
    else err (already_set "rcl_handle already set")

unfoldable pub mark_removed : Publisher → Publisher
mark_removed p = record p { removed = true }

-- A publisher that no init method has initialised.
unfoldable pub is_stub : Publisher → Bool
unfolding is_unknown
is_stub p =
    is_unknown p.rmw_gid
    && (is_unknown p.topic_name && (is_unknown p.node && is_unknown p.queue_depth))

unfoldable pub change_rcl_handle : ℕ → Publisher → Publisher
change_rcl_handle rcl_handle p = record p { rcl_handle = known rcl_handle }

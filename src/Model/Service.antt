-- ===== src/Model/Service.antt =====
-- `Service` of src/model/mod.rs.
pub mod Consistency
use ros2trace_analyzer.Common.{
  ℕ, String, Ref, Bool, true, false, not, ◌||◌, ◌==◌, Result, ok, err, fault, panic,
  already_initialized, already_set, if◌then◌else◌,
}
use ros2trace_analyzer.Utils.ArcWeak.{ArcWeak, weak}
use ros2trace_analyzer.Utils.Known.{Known, known, unknown, is_unknown, is_unknown_or_eq}

pub record Service : Type 0 where
  pub rmw_handle : Known ℕ
  pub rcl_handle : ℕ
  pub rclcpp_handle : Known ℕ
  pub name : Known String
  pub node : Known ArcWeak
  pub callback : Known Ref
  pub removed : Bool

unfoldable pub new : ℕ → Service
new rcl_handle = record {
  rmw_handle = unknown;
  rcl_handle = rcl_handle;
  rclcpp_handle = unknown;
  name = unknown;
  node = unknown;
  callback = unknown;
  removed = false;
}

unfoldable pub rcl_init : ℕ → String → Ref → Service → Result Service
unfolding is_unknown is_unknown_or_eq
rcl_init rmw_handle name node s =
    if s.removed
    then fault panic
    else if not (is_unknown s.name)
        || (not (is_unknown s.node) || not (is_unknown_or_eq ◌==◌ s.rmw_handle rmw_handle))
    then err (already_initialized "Service" "rcl_service_init")
    else ok
        (record s { rmw_handle = known rmw_handle; name = known name; node = known (weak node) })

unfoldable pub set_callback : Ref → Service → Result Service
unfolding is_unknown
set_callback callback s =
    if s.removed
    then fault panic
    else if not (is_unknown s.callback)
    then err (already_set "callback already set")
    else ok (record s { callback = known callback })

unfoldable pub mark_removed : Service → Service
mark_removed s = record s { removed = true }

-- ===== src/Model/Client.antt =====
-- `Client` of src/model/mod.rs.
pub mod Consistency
use ros2trace_analyzer.Common.{
  ℕ, String, Ref, Bool, true, false, not, ◌||◌, Result, ok, err, fault, panic, already_initialized,
  if◌then◌else◌,
}
use ros2trace_analyzer.Utils.ArcWeak.{ArcWeak, weak}
use ros2trace_analyzer.Utils.Known.{Known, known, unknown, is_unknown}

pub record Client : Type 0 where
  pub rcl_handle : ℕ
  pub rmw_handle : Known ℕ
  pub node : Known ArcWeak
  pub service_name : Known String
  pub removed : Bool

unfoldable pub new : ℕ → Client
new id = record {
  rcl_handle = id;
  rmw_handle = unknown;
  node = unknown;
  service_name = unknown;
  removed = false;
}

unfoldable pub rcl_init : ℕ → String → Ref → Client → Result Client
unfolding is_unknown
rcl_init rmw_handle service_name node c =
    if c.removed
    then fault panic
    else if not (is_unknown c.rmw_handle)
        || (not (is_unknown c.node) || not (is_unknown c.service_name))
    then err (already_initialized "Client" "rcl_client_init")
    else ok (record c {
      rmw_handle = known rmw_handle;
      node = known (weak node);
      service_name = known service_name;
    })

unfoldable pub mark_removed : Client → Client
mark_removed c = record c { removed = true }

-- ===== src/Model/Timer.antt =====
-- `Timer` of src/model/mod.rs.
use ros2trace_analyzer.Common.{
  ℕ, ℤ, Ref, Bool, true, false, not, Result, ok, err, fault, panic, already_initialized,
  already_set, if◌then◌else◌,
}
use ros2trace_analyzer.Utils.ArcWeak.{ArcWeak, weak}
use ros2trace_analyzer.Utils.Known.{Known, known, unknown, is_unknown}

pub record Timer : Type 0 where
  pub rcl_handle : ℕ
  pub period : Known ℤ
  pub callback : Known Ref
  pub node : Known ArcWeak
  pub removed : Bool

unfoldable pub new : ℕ → Timer
new id = record {
  rcl_handle = id;
  period = unknown;
  callback = unknown;
  node = unknown;
  removed = false;
}

unfoldable pub rcl_init : ℤ → Timer → Result Timer
unfolding is_unknown
rcl_init period t =
    if t.removed
    then fault panic
    else if not (is_unknown t.period)
    then err (already_initialized "Timer" "rcl_timer_init")
    else ok (record t { period = known period })

unfoldable pub set_callback : Ref → Timer → Result Timer
unfolding is_unknown
set_callback callback t =
    if t.removed
    then fault panic
    else if not (is_unknown t.callback)
    then err (already_set "Timer callback already set")
    else ok (record t { callback = known callback })

unfoldable pub link_node : Ref → Timer → Result Timer
unfolding is_unknown
link_node node t =
    if t.removed
    then fault panic
    else if not (is_unknown t.node)
    then err (already_set "Timer node already set")
    else ok (record t { node = known (weak node) })

unfoldable pub mark_removed : Timer → Timer
mark_removed t = record t { removed = true }

-- ===== src/Model/Publisher/Consistency.antt =====
-- What holds of every `Publisher` that the processor builds, and the methods that keep it.
use ros2trace_analyzer.Common.{ℕ, String, ◌≡◌, true, List, ok, arith}
use ros2trace_analyzer.Utils.ArcWeak.{ArcWeak}
use ros2trace_analyzer.Utils.Known.{is_unknown}
use ros2trace_analyzer.Model.Publisher.{
  Publisher, default, rmw_init, rcl_init, set_rmw_handle, set_rcl_handle, mark_removed,
  change_rcl_handle,
}

-- The topic, the node and the queue depth are known together, and only with an rcl handle; a gid
-- comes with its rmw handle.
pub record IsConsistent (p : Publisher) : Type 0 where
  pub node : is_unknown p.node ≡ is_unknown p.topic_name
  pub depth : is_unknown p.queue_depth ≡ is_unknown p.topic_name
  pub topic : is_unknown p.rcl_handle ≡ true → is_unknown p.topic_name ≡ true
  pub gid : is_unknown p.rmw_handle ≡ true → is_unknown p.rmw_gid ≡ true

pub default-IsConsistent : IsConsistent default
unfolding is_unknown
default-IsConsistent = ground arith

pub rmw_init-IsConsistent :
    (h : ℕ) (g : List ℕ) (p p' : Publisher)
    → IsConsistent p
    → rmw_init h g p ≡ ok p'
    → IsConsistent p'
unfolding rmw_init is_unknown
rmw_init-IsConsistent h g p p' c e = ground arith

pub rcl_init-IsConsistent :
    (h : ℕ) (t : String) (q : ℕ) (n : ArcWeak) (p p' : Publisher)
    → IsConsistent p
    → rcl_init h t q n p ≡ ok p'
    → IsConsistent p'
unfolding rcl_init is_unknown
rcl_init-IsConsistent h t q n p p' c e = ground arith

pub set_rmw_handle-IsConsistent :
    (h : ℕ) (p p' : Publisher) → IsConsistent p → set_rmw_handle h p ≡ ok p' → IsConsistent p'
unfolding set_rmw_handle is_unknown
set_rmw_handle-IsConsistent h p p' c e = ground arith

pub set_rcl_handle-IsConsistent :
    (h : ℕ) (p p' : Publisher) → IsConsistent p → set_rcl_handle h p ≡ ok p' → IsConsistent p'
unfolding set_rcl_handle is_unknown
set_rcl_handle-IsConsistent h p p' c e = ground arith

pub mark_removed-IsConsistent : (p : Publisher) → IsConsistent p → IsConsistent (mark_removed p)
unfolding mark_removed
mark_removed-IsConsistent p c = ground arith

pub change_rcl_handle-IsConsistent :
    (h : ℕ) (p : Publisher) → IsConsistent p → IsConsistent (change_rcl_handle h p)
unfolding change_rcl_handle is_unknown
change_rcl_handle-IsConsistent h p c = ground arith

pub ruleset consistency = (
  default-IsConsistent, rmw_init-IsConsistent, rcl_init-IsConsistent, set_rmw_handle-IsConsistent,
  set_rcl_handle-IsConsistent, mark_removed-IsConsistent, change_rcl_handle-IsConsistent,
)

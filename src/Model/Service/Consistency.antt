-- ===== src/Model/Service/Consistency.antt =====
-- What holds of every `Service` that the processor builds, and the methods that keep it.
use ros2trace_analyzer.Common.{ℕ, String, Ref, ◌≡◌, ok, arith}
use ros2trace_analyzer.Utils.Known.{is_unknown}
use ros2trace_analyzer.Model.Service.{Service, new, rcl_init, set_callback, mark_removed}

-- The name, the node and the rmw handle are known together.
pub record IsConsistent (s : Service) : Type 0 where
  pub node : is_unknown s.node ≡ is_unknown s.name
  pub handle : is_unknown s.rmw_handle ≡ is_unknown s.name

pub new-IsConsistent : (h : ℕ) → IsConsistent (new h)
unfolding new is_unknown
new-IsConsistent h = ground arith

pub rcl_init-IsConsistent :
    (h : ℕ) (name : String) (n : Ref) (s s' : Service)
    → IsConsistent s
    → rcl_init h name n s ≡ ok s'
    → IsConsistent s'
unfolding rcl_init is_unknown
rcl_init-IsConsistent h name n s s' c e = ground arith

pub set_callback-IsConsistent :
    (r : Ref) (s s' : Service) → IsConsistent s → set_callback r s ≡ ok s' → IsConsistent s'
unfolding set_callback is_unknown
set_callback-IsConsistent r s s' c e = ground arith

pub mark_removed-IsConsistent : (s : Service) → IsConsistent s → IsConsistent (mark_removed s)
unfolding mark_removed
mark_removed-IsConsistent s c = ground arith

pub ruleset consistency =
    (new-IsConsistent, rcl_init-IsConsistent, set_callback-IsConsistent, mark_removed-IsConsistent)

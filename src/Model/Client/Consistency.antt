-- ===== src/Model/Client/Consistency.antt =====
-- What holds of every `Client` that the processor builds, and the methods that keep it.
use ros2trace_analyzer.Common.{ℕ, String, Ref, ◌≡◌, ok, arith}
use ros2trace_analyzer.Utils.Known.{is_unknown}
use ros2trace_analyzer.Model.Client.{Client, new, rcl_init, mark_removed}

-- The service name, the node and the rmw handle are known together.
pub record IsConsistent (c : Client) : Type 0 where
  pub node : is_unknown c.node ≡ is_unknown c.service_name
  pub handle : is_unknown c.rmw_handle ≡ is_unknown c.service_name

pub new-IsConsistent : (h : ℕ) → IsConsistent (new h)
unfolding new is_unknown
new-IsConsistent h = ground arith

pub rcl_init-IsConsistent :
    (h : ℕ) (name : String) (n : Ref) (c c' : Client)
    → IsConsistent c
    → rcl_init h name n c ≡ ok c'
    → IsConsistent c'
unfolding rcl_init is_unknown
rcl_init-IsConsistent h name n c c' k e = ground arith

pub mark_removed-IsConsistent : (c : Client) → IsConsistent c → IsConsistent (mark_removed c)
unfolding mark_removed
mark_removed-IsConsistent c k = ground arith

pub ruleset consistency = (new-IsConsistent, rcl_init-IsConsistent, mark_removed-IsConsistent)

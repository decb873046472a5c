-- ===== src/Model/Node/Consistency.antt =====
-- What holds of every `Node` that the processor builds, and the methods that keep it.
use ros2trace_analyzer.Common.{ℕ, String, Ref, ◌≡◌, ok, arith}
use ros2trace_analyzer.Utils.Known.{is_unknown}
use ros2trace_analyzer.Model.Node.{
  Node, new, add_subscriber, add_publisher, add_service, add_client, add_timer, rcl_init,
  take_spin_instance, replace_spin_instance,
}

-- The rmw handle and the name are known together.
pub record IsConsistent (n : Node) : Type 0 where
  pub named : is_unknown n.rmw_handle ≡ is_unknown n.full_name

pub new-IsConsistent : (h : ℕ) → IsConsistent (new h)
unfolding new is_unknown
new-IsConsistent h = ground arith

pub add_subscriber-IsConsistent :
    (r : Ref) (n : Node) → IsConsistent n → IsConsistent (add_subscriber r n)
unfolding add_subscriber
add_subscriber-IsConsistent r n c = ground arith

pub add_publisher-IsConsistent :
    (r : Ref) (n : Node) → IsConsistent n → IsConsistent (add_publisher r n)
unfolding add_publisher
add_publisher-IsConsistent r n c = ground arith

pub add_service-IsConsistent :
    (r : Ref) (n : Node) → IsConsistent n → IsConsistent (add_service r n)
unfolding add_service
add_service-IsConsistent r n c = ground arith

pub add_client-IsConsistent : (r : Ref) (n : Node) → IsConsistent n → IsConsistent (add_client r n)
unfolding add_client
add_client-IsConsistent r n c = ground arith

pub add_timer-IsConsistent : (r : Ref) (n : Node) → IsConsistent n → IsConsistent (add_timer r n)
unfolding add_timer
add_timer-IsConsistent r n c = ground arith

pub take_spin_instance-IsConsistent :
    (n : Node) → IsConsistent n → IsConsistent (take_spin_instance n).0
unfolding take_spin_instance
take_spin_instance-IsConsistent n c = ground arith

pub replace_spin_instance-IsConsistent :
    (r : Ref) (n : Node) → IsConsistent n → IsConsistent (replace_spin_instance r n).0
unfolding replace_spin_instance
replace_spin_instance-IsConsistent r n c = ground arith

pub rcl_init-IsConsistent :
    (h : ℕ) (name namespace : String) (n n' : Node)
    → rcl_init h name namespace n ≡ ok n'
    → IsConsistent n'
unfolding rcl_init is_unknown
rcl_init-IsConsistent h name namespace n n' e = ground arith

pub ruleset consistency = (
  new-IsConsistent, add_subscriber-IsConsistent, add_publisher-IsConsistent,
  add_service-IsConsistent, add_client-IsConsistent, add_timer-IsConsistent,
  take_spin_instance-IsConsistent, replace_spin_instance-IsConsistent, rcl_init-IsConsistent,
)

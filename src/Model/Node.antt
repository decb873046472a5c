-- ===== src/Model/Node.antt =====
-- `Node` of src/model/mod.rs.
pub mod Consistency
use ros2trace_analyzer.Common.{
  ℕ, String, Ref, Option, none, some, List, [], ◌∷◌, ◌++◌, ◌&&◌, Result, ok, fault, panic,
  if◌then◌else◌,
}
use ros2trace_analyzer.Utils.Known.{Known, known, unknown, is_unknown}
use ros2trace_analyzer.Model.Name
use ros2trace_analyzer.Model.Name.{Name}

pub record Node : Type 0 where
  pub rcl_handle : ℕ
  pub rmw_handle : Known ℕ
  pub full_name : Known Name
  pub subscribers : List Ref
  pub publishers : List Ref
  pub services : List Ref
  pub clients : List Ref
  pub timers : List Ref
  pub spin_instance : Option Ref

unfoldable pub new : ℕ → Node
new rcl_handle = record {
  rcl_handle = rcl_handle;
  rmw_handle = unknown;
  full_name = unknown;
  subscribers = [];
  publishers = [];
  services = [];
  clients = [];
  timers = [];
  spin_instance = none;
}

unfoldable pub add_subscriber : Ref → Node → Node
add_subscriber r n = record n { subscribers = n.subscribers ++ r ∷ [] }

unfoldable pub add_publisher : Ref → Node → Node
add_publisher r n = record n { publishers = n.publishers ++ r ∷ [] }

unfoldable pub add_service : Ref → Node → Node
add_service r n = record n { services = n.services ++ r ∷ [] }

unfoldable pub add_client : Ref → Node → Node
add_client r n = record n { clients = n.clients ++ r ∷ [] }

unfoldable pub add_timer : Ref → Node → Node
add_timer r n = record n { timers = n.timers ++ r ∷ [] }

unfoldable pub rcl_init : ℕ → String → String → Node → Result Node
unfolding is_unknown Name.new
rcl_init rmw_handle name namespace n =
    if is_unknown n.rmw_handle && is_unknown n.full_name
    then ok
        (record n { rmw_handle = known rmw_handle; full_name = known (Name.new namespace name) })
    else fault panic

-- `Option::take` and `Option::replace`: the new node, and what it held before.
unfoldable pub take_spin_instance : Node → Node × Option Ref
take_spin_instance n = (record n { spin_instance = none }, n.spin_instance)

unfoldable pub replace_spin_instance : Ref → Node → Node × Option Ref
replace_spin_instance r n = (record n { spin_instance = some r }, n.spin_instance)

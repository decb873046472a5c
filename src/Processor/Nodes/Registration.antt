-- ===== src/Processor/Nodes/Registration.antt =====
-- What `process_rcl_node_init` of src/processor/ros2.rs leaves behind.
use ros2trace_analyzer.Common.{◌≡◌, Ref, none, some, panic, arith}
use ros2trace_analyzer.Utils.Known.{known, is_unknown}
use ros2trace_analyzer.Model.Name
use ros2trace_analyzer.Model.Node
use ros2trace_analyzer.Events.Raw.Ros2.{RclNodeInit}
use ros2trace_analyzer.Processor.Id.{ContextId, into_id, id_eq_refl}
use ros2trace_analyzer.Processor.State.{World}
use ros2trace_analyzer.Processor.Exec.{done, faulted, actions, Shows}
use ros2trace_analyzer.Processor.Nodes.{rcl_init_node, node_entry, process_rcl_node_init}

-- When `process_rcl_node_init` returns, the node handle of the event leads to the node that it
-- returns, which has the rmw handle and the full name of the event.
pub rcl_node_init-registers :
    (e : RclNodeInit) (c : ContextId) (w : World) {r : Ref} {w' : World}
    → process_rcl_node_init e c w ≡ done r w'
    → (w'.nodes_by_rcl (into_id e.node_handle c) ≡ some r)
      × Shows (w'.nodes.cell r) (λ n.
        (n.rmw_handle ≡ known e.rmw_handle)
        × (n.full_name ≡ known (Name.new e.namespace e.node_name)))
unfolding process_rcl_node_init node_entry rcl_init_node actions Node.rcl_init Node.new is_unknown
rcl_node_init-registers e c w h = ground (arith, id_eq_refl (into_id e.node_handle c))

-- A node whose handle is new gets the rmw handle of the event as its rcl handle, not the node handle
-- that the processor finds it by.
pub rcl_node_init-rcl_handle :
    (e : RclNodeInit) (c : ContextId) (w : World) {r : Ref} {w' : World}
    → w.nodes_by_rcl (into_id e.node_handle c) ≡ none
    → process_rcl_node_init e c w ≡ done r w'
    → Shows (w'.nodes.cell r) (λ n. n.rcl_handle ≡ e.rmw_handle)
unfolding process_rcl_node_init node_entry rcl_init_node actions Node.rcl_init Node.new is_unknown
rcl_node_init-rcl_handle e c w new h = ground arith

-- A second initialisation of the same node handle in the same process and host panics.
pub rcl_node_init-twice :
    (e e' : RclNodeInit) (c : ContextId) (w : World) {r : Ref} {w' : World}
    → process_rcl_node_init e c w ≡ done r w'
    → e'.node_handle ≡ e.node_handle
    → process_rcl_node_init e' c w' ≡ faulted panic
unfolding process_rcl_node_init node_entry rcl_init_node actions Node.rcl_init Node.new is_unknown
rcl_node_init-twice e e' c w h same = ground (arith, id_eq_refl (into_id e.node_handle c))

-- ===== src/Processor/Nodes.antt =====
-- `process_rcl_node_init` of src/processor/ros2.rs.
pub mod Registration
use ros2trace_analyzer.Common.{Ref, Option, none, some, Result}
use ros2trace_analyzer.Model.Node
use ros2trace_analyzer.Model.Node.{Node}
use ros2trace_analyzer.Events.Raw.Ros2.{RclNodeInit}
use ros2trace_analyzer.Processor.Id.{ContextId, into_id}
use ros2trace_analyzer.Processor.Exec.{M, ◌>>=◌, ◌>>◌, pure, lift, get, insert, alloc, call}
use ros2trace_analyzer.Processor.Fields

unfoldable pub rcl_init_node : RclNodeInit → Node → Result Node
rcl_init_node event = Node.rcl_init event.rmw_handle event.node_name event.namespace

-- The two arms of the match on the entry. A new node is made by `Node::new(event.rmw_handle)`.
unfoldable pub node_entry : RclNodeInit → ContextId → Option Ref → M Ref
node_entry event context_id (some node_arc) = do
  call Fields.nodes node_arc (rcl_init_node event)
  pure node_arc
node_entry event context_id none = do
  node ← lift (rcl_init_node event (Node.new event.rmw_handle))
  node_arc ← alloc Fields.nodes node
  insert Fields.nodes_by_rcl (into_id event.node_handle context_id) node_arc
  pure node_arc

unfoldable pub process_rcl_node_init : RclNodeInit → ContextId → M Ref
process_rcl_node_init event context_id = do
  found ← get Fields.nodes_by_rcl (into_id event.node_handle context_id)
  node_entry event context_id found

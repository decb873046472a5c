-- ===== src/Processor/Publishers.antt =====
-- The handlers of src/processor/ros2.rs for the initialisation of publishers.
pub mod Registration
use ros2trace_analyzer.Common.{
  Ref, Bool, true, false, Option, none, some, ok, fault, panic, Result, str_eq, if◌then◌else◌,
}
use ros2trace_analyzer.Utils.ArcWeak.{weak}
use ros2trace_analyzer.Model.Node
use ros2trace_analyzer.Model.Node.{Node}
use ros2trace_analyzer.Model.Publisher
use ros2trace_analyzer.Model.Publisher.{Publisher, mark_removed}
use ros2trace_analyzer.Events.Raw.Ros2.{RmwPublisherInit, RclPublisherInit}
use ros2trace_analyzer.Processor.Id.{ContextId, into_id}
use ros2trace_analyzer.Processor.Exec.{
  M, ◌>>=◌, ◌>>◌, pure, lift, expect, insert, alloc, modify, attempt, entry,
}
use ros2trace_analyzer.Processor.Fields

-- A repeated initialisation: the old publisher was deleted, and a new one takes its entry.
unfoldable pub rmw_replace : RmwPublisherInit → ContextId → Ref → Bool → M Ref
rmw_replace event context_id publisher_arc true = pure publisher_arc
rmw_replace event context_id publisher_arc false = do
  modify Fields.publishers publisher_arc mark_removed
  publisher ← expect (Publisher.rmw_init event.rmw_publisher_handle event.gid Publisher.default)
  new_arc ← alloc Fields.publishers publisher
  insert Fields.publishers_by_rmw (into_id event.rmw_publisher_handle context_id) new_arc
  pure new_arc

unfoldable pub process_rmw_publisher_init : RmwPublisherInit → ContextId → M Ref
process_rmw_publisher_init event context_id = do
  publisher_arc ←
      entry Fields.publishers_by_rmw Fields.publishers
        (into_id event.rmw_publisher_handle context_id) (pure Publisher.default)
  initialized ←
      attempt Fields.publishers publisher_arc
        (Publisher.rmw_init event.rmw_publisher_handle event.gid)
  rmw_replace event context_id publisher_arc initialized

-- Only publishers of /rosout may be created before their node.
unfoldable pub node_of_publisher : RclPublisherInit → M Node
node_of_publisher event =
    lift
      (if str_eq event.topic_name "/rosout" then ok (Node.new event.node_handle) else fault panic)

unfoldable pub rcl_init_publisher : RclPublisherInit → Ref → Publisher → Result Publisher
rcl_init_publisher event node_arc =
    Publisher.rcl_init event.publisher_handle event.topic_name event.queue_depth (weak node_arc)

unfoldable pub rcl_replace :
    RclPublisherInit → ContextId → (node_arc publisher_by_rmw_arc : Ref) → Bool → M Ref
rcl_replace event context_id node_arc publisher_by_rmw_arc true = pure publisher_by_rmw_arc
rcl_replace event context_id node_arc publisher_by_rmw_arc false = do
  modify Fields.publishers publisher_by_rmw_arc mark_removed
  publisher ← expect (rcl_init_publisher event node_arc Publisher.default)
  publisher_arc ← alloc Fields.publishers publisher
  insert Fields.publishers_by_rmw (into_id event.rmw_publisher_handle context_id) publisher_arc
  pure publisher_arc

-- `.inspect(|old| old.lock().unwrap().mark_removed())`.
unfoldable pub mark_old_removed : Option Ref → M (Unit {0})
mark_old_removed none = pure tt
mark_old_removed (some old) = modify Fields.publishers old mark_removed

unfoldable pub process_rcl_publisher_init : RclPublisherInit → ContextId → M Ref
process_rcl_publisher_init event context_id = do
  publisher_by_rmw_arc ←
      entry Fields.publishers_by_rmw Fields.publishers
        (into_id event.rmw_publisher_handle context_id)
        (expect (Publisher.set_rmw_handle event.rmw_publisher_handle Publisher.default))
  node_arc ←
      entry Fields.nodes_by_rcl Fields.nodes (into_id event.node_handle context_id)
        (node_of_publisher event)
  initialized ← attempt Fields.publishers publisher_by_rmw_arc (rcl_init_publisher event node_arc)
  publisher_arc ← rcl_replace event context_id node_arc publisher_by_rmw_arc initialized
  old ← insert Fields.publishers_by_rcl (into_id event.publisher_handle context_id) publisher_arc
  mark_old_removed old
  modify Fields.nodes node_arc (Node.add_publisher publisher_arc)
  pure publisher_arc

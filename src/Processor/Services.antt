-- ===== src/Processor/Services.antt =====
-- The handlers of src/processor/ros2.rs for services and clients.
pub mod Registration
use ros2trace_analyzer.Common.{Ref, Bool, true, false, Object, Result}
use ros2trace_analyzer.Model.Node
use ros2trace_analyzer.Model.Service
use ros2trace_analyzer.Model.Service.{Service}
use ros2trace_analyzer.Model.Client
use ros2trace_analyzer.Model.Client.{Client}
use ros2trace_analyzer.Model.Callback
use ros2trace_analyzer.Events.Context.{Context}
use ros2trace_analyzer.Events.Raw.Ros2.{RclServiceInit, RclcppServiceCallbackAdded, RclClientInit}
use ros2trace_analyzer.Processor.Id.{ContextId, into_id}
use ros2trace_analyzer.Processor.Exec.{
  M, ◌>>=◌, ◌>>◌, pure, expect, insert, alloc, modify, call, attempt, entry,
}
use ros2trace_analyzer.Processor.Callers.{Liveness, register_callback}
use ros2trace_analyzer.Processor.Subscriptions.{dependent_node}
use ros2trace_analyzer.Processor.Fields

unfoldable pub rcl_init_service : RclServiceInit → Ref → Service → Result Service
rcl_init_service event node_arc =
    Service.rcl_init event.rmw_service_handle event.service_name node_arc

unfoldable pub replace_service :
    RclServiceInit → ContextId → (node_arc service_arc : Ref) → Bool → M Ref
replace_service event context_id node_arc service_arc true = pure service_arc
replace_service event context_id node_arc service_arc false = do
  modify Fields.services service_arc Service.mark_removed
  service ← expect (rcl_init_service event node_arc (Service.new event.service_handle))
  new_arc ← alloc Fields.services service
  insert Fields.services_by_rcl (into_id event.service_handle context_id) new_arc
  pure new_arc

unfoldable pub process_rcl_service_init : RclServiceInit → ContextId → M Ref
process_rcl_service_init event context_id = do
  service_arc ←
      entry Fields.services_by_rcl Fields.services (into_id event.service_handle context_id)
        (pure (Service.new event.service_handle))
  node_arc ← dependent_node event.node_handle context_id (Object.service service_arc)
  initialized ← attempt Fields.services service_arc (rcl_init_service event node_arc)
  service_arc ← replace_service event context_id node_arc service_arc initialized
  modify Fields.nodes node_arc (Node.add_service service_arc)
  pure service_arc

unfoldable pub process_rclcpp_service_callback_added :
    Liveness → RclcppServiceCallbackAdded → ContextId → Context → M Ref
process_rclcpp_service_callback_added alive event context_id context = do
  service_arc ←
      entry Fields.services_by_rcl Fields.services (into_id event.service_handle context_id)
        (pure (Service.new event.service_handle))
  callback_arc ←
      register_callback alive event.callback context_id
        (Callback.new_service event.callback service_arc context.hostname)
  call Fields.services service_arc (Service.set_callback callback_arc)
  pure callback_arc

unfoldable pub rcl_init_client : RclClientInit → Ref → Client → Result Client
rcl_init_client event node_arc = Client.rcl_init event.rmw_client_handle event.service_name node_arc

unfoldable pub replace_client :
    RclClientInit → ContextId → (node_arc client_arc : Ref) → Bool → M Ref
replace_client event context_id node_arc client_arc true = pure client_arc
replace_client event context_id node_arc client_arc false = do
  modify Fields.clients client_arc Client.mark_removed
  client ← expect (rcl_init_client event node_arc (Client.new event.client_handle))
  new_arc ← alloc Fields.clients client
  insert Fields.clients_by_rcl (into_id event.client_handle context_id) new_arc
  pure new_arc

unfoldable pub process_rcl_client_init : RclClientInit → ContextId → M Ref
process_rcl_client_init event context_id = do
  client_arc ←
      entry Fields.clients_by_rcl Fields.clients (into_id event.client_handle context_id)
        (pure (Client.new event.client_handle))
  node_arc ← dependent_node event.node_handle context_id (Object.client client_arc)
  initialized ← attempt Fields.clients client_arc (rcl_init_client event node_arc)
  client_arc ← replace_client event context_id node_arc client_arc initialized
  modify Fields.nodes node_arc (Node.add_client client_arc)
  pure client_arc

-- ===== src/Processor/Invariants/Objects/Services.antt =====
-- The handlers for services, clients and timers keep the objects consistent.
use ros2trace_analyzer.Common.{Ref, Bool, true, false, ◌≡◌, ok}
use ros2trace_analyzer.Model.Node.Consistency as NodeConsistency
use ros2trace_analyzer.Model.Service
use ros2trace_analyzer.Model.Service.{Service}
use ros2trace_analyzer.Model.Service.Consistency as ServiceConsistency
use ros2trace_analyzer.Model.Service.Consistency.{IsConsistent as ServiceOk}
use ros2trace_analyzer.Model.Client
use ros2trace_analyzer.Model.Client.{Client}
use ros2trace_analyzer.Model.Client.Consistency as ClientConsistency
use ros2trace_analyzer.Model.Client.Consistency.{IsConsistent as ClientOk}
use ros2trace_analyzer.Model.Callback.Consistency as CallbackConsistency
use ros2trace_analyzer.Events.Context.{Context}
use ros2trace_analyzer.Events.Raw.Ros2.{
  RclServiceInit, RclcppServiceCallbackAdded, RclClientInit, RclTimerInit, RclcppTimerCallbackAdded,
  RclcppTimerLinkNode,
}
use ros2trace_analyzer.Processor.Id.{HandleId, ContextId}
use ros2trace_analyzer.Processor.Exec.Keeps.{Keeps, Keeps-bind, keeps_rules}
use ros2trace_analyzer.Processor.Exec.Objects.{object_rules}
use ros2trace_analyzer.Processor.Callers.{Liveness}
use ros2trace_analyzer.Processor.Services.{
  rcl_init_service, replace_service, process_rcl_service_init,
  process_rclcpp_service_callback_added, rcl_init_client, replace_client, process_rcl_client_init,
}
use ros2trace_analyzer.Processor.Timers.{
  replace_timer, process_rcl_timer_init, get_timer_by_rcl_handle,
  process_rclcpp_timer_callback_added, process_rclcpp_timer_link_node,
}
use ros2trace_analyzer.Processor.Invariants.Objects.Defs.{ObjectsAreConsistent as P, heaps}
use ros2trace_analyzer.Processor.Invariants.Objects.Callers.{
  dependent_node-Keeps, register_callback-Keeps,
}

ruleset rules = (
  object_rules, keeps_rules, heaps, NodeConsistency.consistency, ServiceConsistency.consistency,
  ClientConsistency.consistency, CallbackConsistency.consistency,
)

rcl_init_service-Ok :
    (e : RclServiceInit) (n : Ref) (s s' : Service)
    → ServiceOk s
    → rcl_init_service e n s ≡ ok s'
    → ServiceOk s'
unfolding rcl_init_service
rcl_init_service-Ok e n s s' = ServiceConsistency.rcl_init-IsConsistent _ _ _ s s'

-- A new object that was initialised at once.
new_service-Ok :
    (e : RclServiceInit) (n : Ref) (s : Service)
    → rcl_init_service e n (Service.new e.service_handle) ≡ ok s
    → ServiceOk s
new_service-Ok e n s = rcl_init_service-Ok e n _ s (ServiceConsistency.new-IsConsistent _)

replace_service-Keeps :
    (e : RclServiceInit) (c : ContextId) (n r : Ref) (b : Bool)
    → Keeps P (replace_service e c n r b)
unfolding replace_service
replace_service-Keeps e c n r true = search keeps_rules
replace_service-Keeps e c n r false = search (rules, new_service-Ok) depth 12

pub process_rcl_service_init-Keeps :
    (e : RclServiceInit) (c : ContextId) → Keeps P (process_rcl_service_init e c)
unfolding process_rcl_service_init
process_rcl_service_init-Keeps e c = Keeps-bind _ _ (search rules) λ r.
    Keeps-bind _ _ (dependent_node-Keeps _ _ _) λ n.
      Keeps-bind _ _ (search (rules, rcl_init_service-Ok))
        λ b. search (rules, replace_service-Keeps) depth 8

pub process_rclcpp_service_callback_added-Keeps :
    (alive : Liveness) (e : RclcppServiceCallbackAdded) (c : ContextId) (x : Context)
    → Keeps P (process_rclcpp_service_callback_added alive e c x)
unfolding process_rclcpp_service_callback_added
process_rclcpp_service_callback_added-Keeps alive e c x =
    search (rules, register_callback-Keeps) depth 12

rcl_init_client-Ok :
    (e : RclClientInit) (n : Ref) (k k' : Client)
    → ClientOk k
    → rcl_init_client e n k ≡ ok k'
    → ClientOk k'
unfolding rcl_init_client
rcl_init_client-Ok e n k k' = ClientConsistency.rcl_init-IsConsistent _ _ _ k k'

new_client-Ok :
    (e : RclClientInit) (n : Ref) (k : Client)
    → rcl_init_client e n (Client.new e.client_handle) ≡ ok k
    → ClientOk k
new_client-Ok e n k = rcl_init_client-Ok e n _ k (ClientConsistency.new-IsConsistent _)

replace_client-Keeps :
    (e : RclClientInit) (c : ContextId) (n r : Ref) (b : Bool) → Keeps P (replace_client e c n r b)
unfolding replace_client
replace_client-Keeps e c n r true = search keeps_rules
replace_client-Keeps e c n r false = search (rules, new_client-Ok) depth 12

pub process_rcl_client_init-Keeps :
    (e : RclClientInit) (c : ContextId) → Keeps P (process_rcl_client_init e c)
unfolding process_rcl_client_init
process_rcl_client_init-Keeps e c = Keeps-bind _ _ (search rules) λ r.
    Keeps-bind _ _ (dependent_node-Keeps _ _ _) λ n.
      Keeps-bind _ _ (search (rules, rcl_init_client-Ok))
        λ b. search (rules, replace_client-Keeps) depth 8

replace_timer-Keeps :
    (e : RclTimerInit) (c : ContextId) (r : Ref) (b : Bool) → Keeps P (replace_timer e c r b)
unfolding replace_timer
replace_timer-Keeps e c r true = search keeps_rules
replace_timer-Keeps e c r false = search keeps_rules depth 12

pub process_rcl_timer_init-Keeps :
    (e : RclTimerInit) (c : ContextId) → Keeps P (process_rcl_timer_init e c)
unfolding process_rcl_timer_init
process_rcl_timer_init-Keeps e c = search (keeps_rules, replace_timer-Keeps) depth 8

get_timer-Keeps : (id : HandleId) → Keeps P (get_timer_by_rcl_handle id)
unfolding get_timer_by_rcl_handle
get_timer-Keeps id = search keeps_rules

pub process_rclcpp_timer_callback_added-Keeps :
    (alive : Liveness) (e : RclcppTimerCallbackAdded) (c : ContextId) (x : Context)
    → Keeps P (process_rclcpp_timer_callback_added alive e c x)
unfolding process_rclcpp_timer_callback_added
process_rclcpp_timer_callback_added-Keeps alive e c x =
    search (rules, get_timer-Keeps, register_callback-Keeps) depth 12

pub process_rclcpp_timer_link_node-Keeps :
    (e : RclcppTimerLinkNode) (c : ContextId) → Keeps P (process_rclcpp_timer_link_node e c)
unfolding process_rclcpp_timer_link_node
process_rclcpp_timer_link_node-Keeps e c =
    search (rules, get_timer-Keeps, dependent_node-Keeps) depth 12

-- ===== src/Processor/Invariants/Objects/Dispatch.antt =====
-- Every event keeps the objects consistent.
use ros2trace_analyzer.Events.Raw
use ros2trace_analyzer.Processor.State.{World}
use ros2trace_analyzer.Processor.Exec.Keeps.{Keeps}
use ros2trace_analyzer.Processor.Callers.{Liveness}
use ros2trace_analyzer.Processor.Dispatch.{process_raw_event}
use ros2trace_analyzer.Processor.Dispatch.Keeps.{HandlersKeep, process_raw_event-Keeps}
use ros2trace_analyzer.Processor.Trace.{Reachable, Reachable-induction}
use ros2trace_analyzer.Processor.Invariants.Objects.Defs.{
  ObjectsAreConsistent, init-ObjectsAreConsistent,
}
use ros2trace_analyzer.Processor.Invariants.Objects.Publishers.{
  process_rcl_node_init-Keeps, process_rmw_publisher_init-Keeps, process_rcl_publisher_init-Keeps,
}
use ros2trace_analyzer.Processor.Invariants.Objects.Publications.{
  process_rclcpp_publish-Keeps, process_rclcpp_intra_publish-Keeps, process_rcl_publish-Keeps,
  process_rmw_publish-Keeps,
}
use ros2trace_analyzer.Processor.Invariants.Objects.Subscriptions.{
  process_rmw_subscription_init-Keeps, process_rcl_subscription_init-Keeps,
  process_rclcpp_subscription_init-Keeps, process_rclcpp_subscription_callback_added-Keeps,
}
use ros2trace_analyzer.Processor.Invariants.Objects.Takes.{
  process_rmw_take-Keeps, process_rcl_take-Keeps, process_rclcpp_take-Keeps,
}
use ros2trace_analyzer.Processor.Invariants.Objects.Services.{
  process_rcl_service_init-Keeps, process_rclcpp_service_callback_added-Keeps,
  process_rcl_client_init-Keeps, process_rcl_timer_init-Keeps,
  process_rclcpp_timer_callback_added-Keeps, process_rclcpp_timer_link_node-Keeps,
}
use ros2trace_analyzer.Processor.Invariants.Objects.Callbacks.{
  process_rclcpp_callback_register-Keeps, process_callback_start-Keeps, process_callback_end-Keeps,
}
use ros2trace_analyzer.Processor.Invariants.Objects.Spins.{
  process_spin_start-Keeps, process_spin_end-Keeps, process_spin_wake-Keeps,
  process_spin_timeout-Keeps, process_update_time-Keeps,
}

handlers : HandlersKeep ObjectsAreConsistent
handlers = record {
  hosts = λ x w h. h;
  rcl_node_init = process_rcl_node_init-Keeps;
  rmw_publisher_init = process_rmw_publisher_init-Keeps;
  rcl_publisher_init = process_rcl_publisher_init-Keeps;
  rclcpp_publish = process_rclcpp_publish-Keeps;
  rclcpp_intra_publish = process_rclcpp_intra_publish-Keeps;
  rcl_publish = process_rcl_publish-Keeps;
  rmw_publish = process_rmw_publish-Keeps;
  rmw_subscription_init = process_rmw_subscription_init-Keeps;
  rcl_subscription_init = process_rcl_subscription_init-Keeps;
  rclcpp_subscription_init = process_rclcpp_subscription_init-Keeps;
  rclcpp_subscription_callback_added = process_rclcpp_subscription_callback_added-Keeps;
  rmw_take = process_rmw_take-Keeps;
  rcl_take = process_rcl_take-Keeps;
  rclcpp_take = process_rclcpp_take-Keeps;
  rcl_service_init = process_rcl_service_init-Keeps;
  rclcpp_service_callback_added = process_rclcpp_service_callback_added-Keeps;
  rcl_client_init = process_rcl_client_init-Keeps;
  rcl_timer_init = process_rcl_timer_init-Keeps;
  rclcpp_timer_callback_added = process_rclcpp_timer_callback_added-Keeps;
  rclcpp_timer_link_node = process_rclcpp_timer_link_node-Keeps;
  rclcpp_callback_register = process_rclcpp_callback_register-Keeps;
  callback_start = process_callback_start-Keeps;
  callback_end = process_callback_end-Keeps;
  spin_start = process_spin_start-Keeps;
  spin_end = process_spin_end-Keeps;
  spin_wake = process_spin_wake-Keeps;
  spin_timeout = process_spin_timeout-Keeps;
  update_time = process_update_time-Keeps;
}

-- Whatever event is processed, and whether it is processed or fails, objects that were all consistent
-- stay so.
pub process_raw_event-ObjectsAreConsistent :
    (alive : Liveness) (event : Raw.FullEvent)
    → Keeps ObjectsAreConsistent (process_raw_event alive event)
process_raw_event-ObjectsAreConsistent = process_raw_event-Keeps handlers

-- In every state that the processor reaches from the empty one, all objects are consistent: a
-- subscriber holds at most eleven taken messages, and knows its topic, node and queue depth exactly
-- when it knows its rcl handle; a publisher knows its topic, node and queue depth together, and no
-- topic without an rcl handle; neither knows a gid without an rmw handle; a node knows its full name
-- exactly when it knows its rmw handle; a service and a client know their rmw handle, name and node
-- together; a callback has a caller; a publication has no source timestamp without an rmw time; a
-- received message knows its rmw time and its origin exactly when it knows its subscriber, and has
-- some receive time; a spin has decided on its timeout exactly when it woke or ended, and one that
-- timed out has a wake time and no end.
pub Reachable-ObjectsAreConsistent : {w : World} → Reachable w → ObjectsAreConsistent w
Reachable-ObjectsAreConsistent =
    Reachable-induction process_raw_event-ObjectsAreConsistent init-ObjectsAreConsistent

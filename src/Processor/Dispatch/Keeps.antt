-- ===== src/Processor/Dispatch/Keeps.antt =====
-- A property that every handler keeps is kept by `process_raw_event`.
use ros2trace_analyzer.Common.{String, ℕ, Bool, true, false, List, if◌then◌else◌, panic}
use ros2trace_analyzer.Model.PublicationMessage.{Time}
use ros2trace_analyzer.Events.Context.{Context}
use ros2trace_analyzer.Events.Raw
use ros2trace_analyzer.Processor.Id.{ContextId}
use ros2trace_analyzer.Processor.State.{World}
use ros2trace_analyzer.Processor.Exec.{done, faulted}
use ros2trace_analyzer.Processor.Exec.Keeps.{Holds, Keeps, keeps_rules}
use ros2trace_analyzer.Processor.Callers.{Liveness}
use ros2trace_analyzer.Processor.Hosts.{host_to_host_id}
use ros2trace_analyzer.Processor.Dispatch.{
  dispatch_ros2, process_raw_ros2_event, dispatch_r2r, process_raw_r2r_event, process_inner,
  process_raw_event,
}
use ros2trace_analyzer.Processor.Nodes.{process_rcl_node_init}
use ros2trace_analyzer.Processor.Publishers.{process_rmw_publisher_init, process_rcl_publisher_init}
use ros2trace_analyzer.Processor.Publications.{
  process_rclcpp_publish, process_rclcpp_intra_publish, process_rcl_publish, process_rmw_publish,
}
use ros2trace_analyzer.Processor.Subscriptions.{
  process_rmw_subscription_init, process_rcl_subscription_init, process_rclcpp_subscription_init,
  process_rclcpp_subscription_callback_added,
}
use ros2trace_analyzer.Processor.Takes.{process_rmw_take, process_rcl_take, process_rclcpp_take}
use ros2trace_analyzer.Processor.Services.{
  process_rcl_service_init, process_rclcpp_service_callback_added, process_rcl_client_init,
}
use ros2trace_analyzer.Processor.Timers.{
  process_rcl_timer_init, process_rclcpp_timer_callback_added, process_rclcpp_timer_link_node,
}
use ros2trace_analyzer.Processor.Callbacks.{
  process_rclcpp_callback_register, process_callback_start, process_callback_end,
}
use ros2trace_analyzer.Processor.Spins.{
  process_spin_start, process_spin_end, process_spin_wake, process_spin_timeout,
  process_update_time,
}

pub record HandlersKeep (P : World → Type 0) : Type 0 where
  pub hosts :
      (hosts : List (String × ℕ)) (w : World) → P w → P (record w { hostname_to_host_id = hosts })
  pub rcl_node_init :
      (event : Raw.Ros2.RclNodeInit) (context_id : ContextId)
      → Keeps P (process_rcl_node_init event context_id)
  pub rmw_publisher_init :
      (event : Raw.Ros2.RmwPublisherInit) (context_id : ContextId)
      → Keeps P (process_rmw_publisher_init event context_id)
  pub rcl_publisher_init :
      (event : Raw.Ros2.RclPublisherInit) (context_id : ContextId)
      → Keeps P (process_rcl_publisher_init event context_id)
  pub rclcpp_publish :
      (event : Raw.Ros2.RclcppPublish) (time : Time) (context_id : ContextId)
      → Keeps P (process_rclcpp_publish event time context_id)
  pub rclcpp_intra_publish :
      (event : Raw.Ros2.RclcppIntraPublish) (context_id : ContextId)
      → Keeps P (process_rclcpp_intra_publish event context_id)
  pub rcl_publish :
      (event : Raw.Ros2.RclPublish) (time : Time) (context_id : ContextId)
      → Keeps P (process_rcl_publish event time context_id)
  pub rmw_publish :
      (event : Raw.Ros2.RmwPublish) (time : Time) (context_id : ContextId)
      → Keeps P (process_rmw_publish event time context_id)
  pub rmw_subscription_init :
      (event : Raw.Ros2.RmwSubscriptionInit) (context_id : ContextId)
      → Keeps P (process_rmw_subscription_init event context_id)
  pub rcl_subscription_init :
      (event : Raw.Ros2.RclSubscriptionInit) (context_id : ContextId)
      → Keeps P (process_rcl_subscription_init event context_id)
  pub rclcpp_subscription_init :
      (event : Raw.Ros2.RclcppSubscriptionInit) (context_id : ContextId)
      → Keeps P (process_rclcpp_subscription_init event context_id)
  pub rclcpp_subscription_callback_added :
      (alive : Liveness) (event : Raw.Ros2.RclcppSubscriptionCallbackAdded) (context_id : ContextId)
      (context : Context)
      → Keeps P (process_rclcpp_subscription_callback_added alive event context_id context)
  pub rmw_take :
      (event : Raw.Ros2.RmwTake) (time : Time) (context_id : ContextId)
      → Keeps P (process_rmw_take event time context_id)
  pub rcl_take :
      (event : Raw.Ros2.RclTake) (time : Time) (context_id : ContextId)
      → Keeps P (process_rcl_take event time context_id)
  pub rclcpp_take :
      (event : Raw.Ros2.RclcppTake) (time : Time) (context_id : ContextId)
      → Keeps P (process_rclcpp_take event time context_id)
  pub rcl_service_init :
      (event : Raw.Ros2.RclServiceInit) (context_id : ContextId)
      → Keeps P (process_rcl_service_init event context_id)
  pub rclcpp_service_callback_added :
      (alive : Liveness) (event : Raw.Ros2.RclcppServiceCallbackAdded) (context_id : ContextId)
      (context : Context)
      → Keeps P (process_rclcpp_service_callback_added alive event context_id context)
  pub rcl_client_init :
      (event : Raw.Ros2.RclClientInit) (context_id : ContextId)
      → Keeps P (process_rcl_client_init event context_id)
  pub rcl_timer_init :
      (event : Raw.Ros2.RclTimerInit) (context_id : ContextId)
      → Keeps P (process_rcl_timer_init event context_id)
  pub rclcpp_timer_callback_added :
      (alive : Liveness) (event : Raw.Ros2.RclcppTimerCallbackAdded) (context_id : ContextId)
      (context : Context)
      → Keeps P (process_rclcpp_timer_callback_added alive event context_id context)
  pub rclcpp_timer_link_node :
      (event : Raw.Ros2.RclcppTimerLinkNode) (context_id : ContextId)
      → Keeps P (process_rclcpp_timer_link_node event context_id)
  pub rclcpp_callback_register :
      (event : Raw.Ros2.RclcppCallbackRegister) (context_id : ContextId)
      → Keeps P (process_rclcpp_callback_register event context_id)
  pub callback_start :
      (alive : Liveness) (event : Raw.Ros2.CallbackStart) (time : Time) (context_id : ContextId)
      → Keeps P (process_callback_start alive event time context_id)
  pub callback_end :
      (event : Raw.Ros2.CallbackEnd) (time : Time) (context_id : ContextId)
      → Keeps P (process_callback_end event time context_id)
  pub spin_start :
      (event : Raw.R2r.SpinStart) (time : Time) (context_id : ContextId)
      → Keeps P (process_spin_start event time context_id)
  pub spin_end :
      (event : Raw.R2r.SpinEnd) (time : Time) (context_id : ContextId)
      → Keeps P (process_spin_end event time context_id)
  pub spin_wake :
      (event : Raw.R2r.SpinWake) (time : Time) (context_id : ContextId)
      → Keeps P (process_spin_wake event time context_id)
  pub spin_timeout :
      (event : Raw.R2r.SpinTimeout) (time : Time) (context_id : ContextId)
      → Keeps P (process_spin_timeout event time context_id)
  pub update_time :
      (event : Raw.R2r.UpdateTime) (context_id : ContextId)
      → Keeps P (process_update_time event context_id)

module _ {P : World → Type 0} (k : HandlersKeep P) where
  if-Holds :
      (b : Bool) (id : ℕ) (w : World) → P w → Holds P (if b then done id w else faulted panic)
  if-Holds true id w h = h
  if-Holds false id w h = tt

  host_to_host_id-Keeps : (hostname : String) → Keeps P (host_to_host_id hostname)
  unfolding host_to_host_id
  host_to_host_id-Keeps hostname = record { at = λ w h. if-Holds _ _ _ (k.hosts _ w h) }

  dispatch_ros2-Keeps :
      (alive : Liveness) (event : Raw.Ros2.Event) (context : Context) (time : Time)
      (context_id : ContextId)
      → Keeps P (dispatch_ros2 alive event context time context_id)
  unfolding dispatch_ros2
  dispatch_ros2-Keeps alive (Raw.Ros2.rcl_node_init event) context time context_id =
      search (keeps_rules, k.rcl_node_init)
  dispatch_ros2-Keeps alive (Raw.Ros2.rmw_publisher_init event) context time context_id =
      search (keeps_rules, k.rmw_publisher_init)
  dispatch_ros2-Keeps alive (Raw.Ros2.rcl_publisher_init event) context time context_id =
      search (keeps_rules, k.rcl_publisher_init)
  dispatch_ros2-Keeps alive (Raw.Ros2.rclcpp_publish event) context time context_id =
      search (keeps_rules, k.rclcpp_publish)
  dispatch_ros2-Keeps alive (Raw.Ros2.rclcpp_intra_publish event) context time context_id =
      search (keeps_rules, k.rclcpp_intra_publish)
  dispatch_ros2-Keeps alive (Raw.Ros2.rcl_publish event) context time context_id =
      search (keeps_rules, k.rcl_publish)
  dispatch_ros2-Keeps alive (Raw.Ros2.rmw_publish event) context time context_id =
      search (keeps_rules, k.rmw_publish)
  dispatch_ros2-Keeps alive (Raw.Ros2.rmw_subscription_init event) context time context_id =
      search (keeps_rules, k.rmw_subscription_init)
  dispatch_ros2-Keeps alive (Raw.Ros2.rcl_subscription_init event) context time context_id =
      search (keeps_rules, k.rcl_subscription_init)
  dispatch_ros2-Keeps alive (Raw.Ros2.rclcpp_subscription_init event) context time context_id =
      search (keeps_rules, k.rclcpp_subscription_init)
  dispatch_ros2-Keeps alive (Raw.Ros2.rclcpp_subscription_callback_added event) context time
        context_id =
      search (keeps_rules, k.rclcpp_subscription_callback_added)
  dispatch_ros2-Keeps alive (Raw.Ros2.rmw_take event) context time context_id =
      search (keeps_rules, k.rmw_take)
  dispatch_ros2-Keeps alive (Raw.Ros2.rcl_take event) context time context_id =
      search (keeps_rules, k.rcl_take)
  dispatch_ros2-Keeps alive (Raw.Ros2.rclcpp_take event) context time context_id =
      search (keeps_rules, k.rclcpp_take)
  dispatch_ros2-Keeps alive (Raw.Ros2.rcl_service_init event) context time context_id =
      search (keeps_rules, k.rcl_service_init)
  dispatch_ros2-Keeps alive (Raw.Ros2.rclcpp_service_callback_added event) context time context_id =
      search (keeps_rules, k.rclcpp_service_callback_added)
  dispatch_ros2-Keeps alive (Raw.Ros2.rcl_client_init event) context time context_id =
      search (keeps_rules, k.rcl_client_init)
  dispatch_ros2-Keeps alive (Raw.Ros2.rcl_timer_init event) context time context_id =
      search (keeps_rules, k.rcl_timer_init)
  dispatch_ros2-Keeps alive (Raw.Ros2.rclcpp_timer_callback_added event) context time context_id =
      search (keeps_rules, k.rclcpp_timer_callback_added)
  dispatch_ros2-Keeps alive (Raw.Ros2.rclcpp_timer_link_node event) context time context_id =
      search (keeps_rules, k.rclcpp_timer_link_node)
  dispatch_ros2-Keeps alive (Raw.Ros2.rclcpp_callback_register event) context time context_id =
      search (keeps_rules, k.rclcpp_callback_register)
  dispatch_ros2-Keeps alive (Raw.Ros2.callback_start event) context time context_id =
      search (keeps_rules, k.callback_start)
  dispatch_ros2-Keeps alive (Raw.Ros2.callback_end event) context time context_id =
      search (keeps_rules, k.callback_end)
  dispatch_ros2-Keeps alive event context time context_id = search keeps_rules

  dispatch_r2r-Keeps :
      (event : Raw.R2r.Event) (time : Time) (context_id : ContextId)
      → Keeps P (dispatch_r2r event time context_id)
  unfolding dispatch_r2r
  dispatch_r2r-Keeps (Raw.R2r.spin_start event) time context_id = search (keeps_rules, k.spin_start)
  dispatch_r2r-Keeps (Raw.R2r.spin_end event) time context_id = search (keeps_rules, k.spin_end)
  dispatch_r2r-Keeps (Raw.R2r.spin_wake event) time context_id = search (keeps_rules, k.spin_wake)
  dispatch_r2r-Keeps (Raw.R2r.spin_timeout event) time context_id =
      search (keeps_rules, k.spin_timeout)
  dispatch_r2r-Keeps (Raw.R2r.update_time event) time context_id =
      search (keeps_rules, k.update_time)

  ros2-Keeps :
      (alive : Liveness) (event : Raw.Ros2.Event) (context : Context) (time : Time)
      → Keeps P (process_raw_ros2_event alive event context time)
  unfolding process_raw_ros2_event
  ros2-Keeps alive event context time =
      search (keeps_rules, host_to_host_id-Keeps, dispatch_ros2-Keeps)

  r2r-Keeps :
      (event : Raw.R2r.Event) (context : Context) (time : Time)
      → Keeps P (process_raw_r2r_event event context time)
  unfolding process_raw_r2r_event
  r2r-Keeps event context time = search (keeps_rules, host_to_host_id-Keeps, dispatch_r2r-Keeps)

  process_inner-Keeps :
      (alive : Liveness) (event : Raw.Event) (context : Context) (time : Time)
      → Keeps P (process_inner alive event context time)
  unfolding process_inner
  process_inner-Keeps alive (Raw.ros2 event) context time = search (keeps_rules, ros2-Keeps)
  process_inner-Keeps alive (Raw.r2r event) context time = search (keeps_rules, r2r-Keeps)

  pub process_raw_event-Keeps :
      (alive : Liveness) (event : Raw.FullEvent) → Keeps P (process_raw_event alive event)
  unfolding process_raw_event
  process_raw_event-Keeps alive event =
      process_inner-Keeps alive event.event event.context event.time

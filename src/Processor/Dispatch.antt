-- ===== src/Processor/Dispatch.antt =====
-- `process_raw_ros2_event`, `process_raw_r2r_event` and `process_raw_event` of src/processor, and the
-- run of the processor over the events of a trace (`next` of src/main.rs).
pub mod Keeps
use ros2trace_analyzer.Common.{Ref, Option}
use ros2trace_analyzer.Model.PublicationMessage.{Time}
use ros2trace_analyzer.Events.Context.{Context}
use ros2trace_analyzer.Events.Raw
use ros2trace_analyzer.Events.Processed
use ros2trace_analyzer.Processor.Id.{ContextId}
use ros2trace_analyzer.Processor.Exec.{M, ◌>>=◌, pure}
use ros2trace_analyzer.Processor.Hosts.{host_to_host_id}
use ros2trace_analyzer.Processor.Callers.{Liveness}
use ros2trace_analyzer.Processor.Nodes.{process_rcl_node_init}
use ros2trace_analyzer.Processor.Publishers.{process_rmw_publisher_init, process_rcl_publisher_init}
use ros2trace_analyzer.Processor.Publications.{
  process_rclcpp_publish, process_rclcpp_intra_publish, process_rcl_publish, process_rmw_publish,
}
use ros2trace_analyzer.Processor.Subscriptions.{
  process_rmw_subscription_init, process_rcl_subscription_init, process_rclcpp_subscription_init,
  process_rclcpp_subscription_callback_added,
}
use ros2trace_analyzer.Processor.Takes.{process_rmw_take, process_rcl_take, process_rclcpp_take}
use ros2trace_analyzer.Processor.Services.{
  process_rcl_service_init, process_rclcpp_service_callback_added, process_rcl_client_init,
}
use ros2trace_analyzer.Processor.Timers.{
  process_rcl_timer_init, process_rclcpp_timer_callback_added, process_rclcpp_timer_link_node,
}
use ros2trace_analyzer.Processor.Callbacks.{
  process_rclcpp_callback_register, process_callback_start, process_callback_end,
}
use ros2trace_analyzer.Processor.Spins.{
  process_spin_start, process_spin_end, process_spin_wake, process_spin_timeout,
  process_update_time,
}

-- An event that the processor does not handle comes back as it was: this is `MaybeProcessed::Raw`,
-- and `UnsupportedOrError::Unsupported` before it.
pub data MaybeProcessed (P R : Type 0) : Type 0 where
  processed : P → MaybeProcessed P R
  raw : R → MaybeProcessed P R

abbrev Ros2Result : Type 0
Ros2Result = MaybeProcessed Processed.Ros2.Event Raw.Ros2.Event

abbrev ros2_done : {A : Type 0} → (A → Processed.Ros2.Event) → M A → M Ros2Result
ros2_done make m = do a ← m; pure (processed (make a))

-- The match on the event.
unfoldable pub dispatch_ros2 : Liveness → Raw.Ros2.Event → Context → Time → ContextId → M Ros2Result
dispatch_ros2 alive (Raw.Ros2.rcl_node_init event) context time context_id =
    ros2_done (λ r. Processed.Ros2.rcl_node_init (record { node = r }))
      (process_rcl_node_init event context_id)
dispatch_ros2 alive (Raw.Ros2.rmw_publisher_init event) context time context_id =
    ros2_done (λ r. Processed.Ros2.rmw_publisher_init (record { publisher = r }))
      (process_rmw_publisher_init event context_id)
dispatch_ros2 alive (Raw.Ros2.rcl_publisher_init event) context time context_id =
    ros2_done (λ r. Processed.Ros2.rcl_publisher_init (record { publisher = r }))
      (process_rcl_publisher_init event context_id)
dispatch_ros2 alive (Raw.Ros2.rclcpp_publish event) context time context_id =
    ros2_done (λ r. Processed.Ros2.rclcpp_publish (record { message = r }))
      (process_rclcpp_publish event time context_id)
dispatch_ros2 alive (Raw.Ros2.rclcpp_intra_publish event) context time context_id =
    ros2_done (λ r. Processed.Ros2.rclcpp_intra_publish (record { message = r }))
      (process_rclcpp_intra_publish event context_id)
dispatch_ros2 alive (Raw.Ros2.rcl_publish event) context time context_id =
    ros2_done (λ r. Processed.Ros2.rcl_publish (record { message = r }))
      (process_rcl_publish event time context_id)
dispatch_ros2 alive (Raw.Ros2.rmw_publish event) context time context_id =
    ros2_done (λ r. Processed.Ros2.rmw_publish (record { message = r }))
      (process_rmw_publish event time context_id)
dispatch_ros2 alive (Raw.Ros2.rmw_subscription_init event) context time context_id =
    ros2_done (λ r. Processed.Ros2.rmw_subscription_init (record { subscription = r }))
      (process_rmw_subscription_init event context_id)
dispatch_ros2 alive (Raw.Ros2.rcl_subscription_init event) context time context_id =
    ros2_done (λ r. Processed.Ros2.rcl_subscription_init (record { subscription = r }))
      (process_rcl_subscription_init event context_id)
dispatch_ros2 alive (Raw.Ros2.rclcpp_subscription_init event) context time context_id =
    ros2_done (λ r. Processed.Ros2.rclcpp_subscription_init (record { subscription = r }))
      (process_rclcpp_subscription_init event context_id)
dispatch_ros2 alive (Raw.Ros2.rclcpp_subscription_callback_added event) context time context_id =
    ros2_done (λ r. Processed.Ros2.rclcpp_subscription_callback_added (record { callback = r }))
      (process_rclcpp_subscription_callback_added alive event context_id context)
dispatch_ros2 alive (Raw.Ros2.rmw_take event) context time context_id =
    ros2_done (λ p. Processed.Ros2.rmw_take (record { message = p.0; taken = p.1 }))
      (process_rmw_take event time context_id)
dispatch_ros2 alive (Raw.Ros2.rcl_take event) context time context_id =
    ros2_done (λ p. Processed.Ros2.rcl_take (record { message = p.0; is_new = p.1 }))
      (process_rcl_take event time context_id)
dispatch_ros2 alive (Raw.Ros2.rclcpp_take event) context time context_id =
    ros2_done (λ p. Processed.Ros2.rclcpp_take (record { message = p.0; is_new = p.1 }))
      (process_rclcpp_take event time context_id)
dispatch_ros2 alive (Raw.Ros2.rcl_service_init event) context time context_id =
    ros2_done (λ r. Processed.Ros2.rcl_service_init (record { service = r }))
      (process_rcl_service_init event context_id)
dispatch_ros2 alive (Raw.Ros2.rclcpp_service_callback_added event) context time context_id =
    ros2_done (λ r. Processed.Ros2.rclcpp_service_callback_added (record { callback = r }))
      (process_rclcpp_service_callback_added alive event context_id context)
dispatch_ros2 alive (Raw.Ros2.rcl_client_init event) context time context_id =
    ros2_done (λ r. Processed.Ros2.rcl_client_init (record { client = r }))
      (process_rcl_client_init event context_id)
dispatch_ros2 alive (Raw.Ros2.rcl_timer_init event) context time context_id =
    ros2_done (λ r. Processed.Ros2.rcl_timer_init (record { timer = r }))
      (process_rcl_timer_init event context_id)
dispatch_ros2 alive (Raw.Ros2.rclcpp_timer_callback_added event) context time context_id =
    ros2_done (λ r. Processed.Ros2.rclcpp_timer_callback_added (record { callback = r }))
      (process_rclcpp_timer_callback_added alive event context_id context)
dispatch_ros2 alive (Raw.Ros2.rclcpp_timer_link_node event) context time context_id =
    ros2_done (λ r. Processed.Ros2.rclcpp_timer_link_node (record { timer = r }))
      (process_rclcpp_timer_link_node event context_id)
dispatch_ros2 alive (Raw.Ros2.rclcpp_callback_register event) context time context_id =
    ros2_done (λ r. Processed.Ros2.rclcpp_callback_register (record { callback = r }))
      (process_rclcpp_callback_register event context_id)
dispatch_ros2 alive (Raw.Ros2.callback_start event) context time context_id =
    ros2_done
      (λ r.
        Processed.Ros2.callback_start
          (record { is_intra_process = event.is_intra_process; callback = r }))
      (process_callback_start alive event time context_id)
dispatch_ros2 alive (Raw.Ros2.callback_end event) context time context_id =
    ros2_done (λ r. Processed.Ros2.callback_end (record { callback = r }))
      (process_callback_end event time context_id)
dispatch_ros2 alive event context time context_id = pure (raw event)

unfoldable pub process_raw_ros2_event : Liveness → Raw.Ros2.Event → Context → Time → M Ros2Result
process_raw_ros2_event alive event context time = do
  host_id ← host_to_host_id context.hostname
  dispatch_ros2 alive event context time (record { vpid = context.vpid; host_id = host_id })

unfoldable pub spin_event :
    Ref × Option Ref → (Ref → Option Ref → Processed.R2r.Event) → Processed.R2r.Event
spin_event p make = make p.0 p.1

unfoldable pub dispatch_r2r : Raw.R2r.Event → Time → ContextId → M Processed.R2r.Event
dispatch_r2r (Raw.R2r.spin_start event) time context_id = do
  p ← process_spin_start event time context_id
  pure (Processed.R2r.spin_start (record { node = p.0; spin = p.1 }))
dispatch_r2r (Raw.R2r.spin_end event) time context_id = do
  p ← process_spin_end event time context_id
  pure (Processed.R2r.spin_end (record { node = p.0; spin = p.1 }))
dispatch_r2r (Raw.R2r.spin_wake event) time context_id = do
  p ← process_spin_wake event time context_id
  pure (Processed.R2r.spin_wake (record { node = p.0; spin = p.1 }))
dispatch_r2r (Raw.R2r.spin_timeout event) time context_id = do
  p ← process_spin_timeout event time context_id
  pure (Processed.R2r.spin_timeout (record { node = p.0; spin = p.1 }))
dispatch_r2r (Raw.R2r.update_time event) time context_id = do
  r ← process_update_time event context_id
  pure (
      Processed.R2r.update_time
        (record { subscriber = r; time_s = event.time_s; time_ns = event.time_ns }))

unfoldable pub process_raw_r2r_event : Raw.R2r.Event → Context → Time → M Processed.R2r.Event
process_raw_r2r_event event context time = do
  host_id ← host_to_host_id context.hostname
  dispatch_r2r event time (record { vpid = context.vpid; host_id = host_id })

unfoldable pub into_full_event :
    Context → Time → Ros2Result → MaybeProcessed Processed.FullEvent Raw.FullEvent
into_full_event context time (processed event) =
    processed (record { context = context; time = time; event = Processed.ros2 event })
into_full_event context time (raw event) =
    raw (record { context = context; time = time; event = Raw.ros2 event })

unfoldable pub process_inner :
    Liveness → Raw.Event → Context → Time → M (MaybeProcessed Processed.FullEvent Raw.FullEvent)
process_inner alive (Raw.ros2 event) context time = do
  result ← process_raw_ros2_event alive event context time
  pure (into_full_event context time result)
process_inner alive (Raw.r2r event) context time = do
  event ← process_raw_r2r_event event context time
  pure (processed (record { context = context; time = time; event = Processed.r2r event }))

unfoldable pub process_raw_event :
    Liveness → Raw.FullEvent → M (MaybeProcessed Processed.FullEvent Raw.FullEvent)
process_raw_event alive full_event =
    process_inner alive full_event.event full_event.context full_event.time

-- ===== src/Events/Raw/Ros2.antt =====
-- src/raw_events/ros2.rs.
use ros2trace_analyzer.Common.{ℕ, ℤ, String, Bool, Option, List}

pub record RclInit : Type 0 where
  pub context_handle : ℕ
  pub version : String

pub record RclNodeInit : Type 0 where
  pub node_handle : ℕ
  pub rmw_handle : ℕ
  pub node_name : String
  pub namespace : String

pub record RmwPublisherInit : Type 0 where
  pub rmw_publisher_handle : ℕ
  pub gid : List ℕ

pub record RclPublisherInit : Type 0 where
  pub publisher_handle : ℕ
  pub node_handle : ℕ
  pub rmw_publisher_handle : ℕ
  pub topic_name : String
  pub queue_depth : ℕ

pub record RclcppPublish : Type 0 where
  pub message : ℕ

pub record RclcppIntraPublish : Type 0 where
  pub publisher_handle : ℕ
  pub message : ℕ

pub record RclPublish : Type 0 where
  pub publisher_handle : ℕ
  pub message : ℕ

pub record RmwPublish : Type 0 where
  pub rmw_publisher_handle : Option ℕ
  pub message : ℕ
  pub timestamp : Option ℤ

pub record RmwSubscriptionInit : Type 0 where
  pub rmw_subscription_handle : ℕ
  pub gid : List ℕ

pub record RclSubscriptionInit : Type 0 where
  pub subscription_handle : ℕ
  pub node_handle : ℕ
  pub rmw_subscription_handle : ℕ
  pub topic_name : String
  pub queue_depth : ℕ

pub record RclcppSubscriptionInit : Type 0 where
  pub subscription_handle : ℕ
  pub subscription : ℕ

pub record RclcppSubscriptionCallbackAdded : Type 0 where
  pub subscription : ℕ
  pub callback : ℕ

pub record RmwTake : Type 0 where
  pub rmw_subscription_handle : ℕ
  pub message : ℕ
  pub source_timestamp : ℤ
  pub taken : Bool

pub record RclTake : Type 0 where
  pub message : ℕ

pub record RclcppTake : Type 0 where
  pub message : ℕ

pub record RclServiceInit : Type 0 where
  pub service_handle : ℕ
  pub node_handle : ℕ
  pub rmw_service_handle : ℕ
  pub service_name : String

pub record RclcppServiceCallbackAdded : Type 0 where
  pub service_handle : ℕ
  pub callback : ℕ

pub record RclClientInit : Type 0 where
  pub client_handle : ℕ
  pub node_handle : ℕ
  pub rmw_client_handle : ℕ
  pub service_name : String

pub record RclTimerInit : Type 0 where
  pub timer_handle : ℕ
  pub period : ℤ

pub record RclcppTimerCallbackAdded : Type 0 where
  pub timer_handle : ℕ
  pub callback : ℕ

pub record RclcppTimerLinkNode : Type 0 where
  pub timer_handle : ℕ
  pub node_handle : ℕ

pub record RclcppCallbackRegister : Type 0 where
  pub callback : ℕ
  pub symbol : String

pub record CallbackStart : Type 0 where
  pub callback : ℕ
  pub is_intra_process : Bool

pub record CallbackEnd : Type 0 where
  pub callback : ℕ

pub record RclLifecycleStateMachineInit : Type 0 where
  pub node_handle : ℕ
  pub state_machine : ℕ

pub record RclLifecycleTransition : Type 0 where
  pub state_machine : ℕ
  pub start_label : String
  pub goal_label : String

abbrev pub RclCppExecutorGetNextReady : Type 0
RclCppExecutorGetNextReady = Unit

pub record RclCppExecutorWaitForWork : Type 0 where
  pub timeout : ℤ

pub record RclCppExecutorExecute : Type 0 where
  pub handle : ℕ

pub record RclCppIpbToSubscription : Type 0 where
  pub ipb : ℕ
  pub subscription : ℕ

pub record RclCppBufferToIpb : Type 0 where
  pub buffer : ℕ
  pub ipb : ℕ

pub record RclCppConstructRingBuffer : Type 0 where
  pub buffer : ℕ
  pub capacity : ℕ

pub record RclCppRingBufferEnqueue : Type 0 where
  pub buffer : ℕ
  pub index : ℕ
  pub size : ℕ
  pub overwritten : Bool

pub record RclCppRingBufferDequeue : Type 0 where
  pub buffer : ℕ
  pub index : ℕ
  pub size : ℕ

pub record RclCppRingBufferClear : Type 0 where
  pub buffer : ℕ

pub data Event : Type 0 where
  rcl_init : RclInit → Event
  rcl_node_init : RclNodeInit → Event
  rmw_publisher_init : RmwPublisherInit → Event
  rcl_publisher_init : RclPublisherInit → Event
  rclcpp_publish : RclcppPublish → Event
  rclcpp_intra_publish : RclcppIntraPublish → Event
  rcl_publish : RclPublish → Event
  rmw_publish : RmwPublish → Event
  rmw_subscription_init : RmwSubscriptionInit → Event
  rcl_subscription_init : RclSubscriptionInit → Event
  rclcpp_subscription_init : RclcppSubscriptionInit → Event
  rclcpp_subscription_callback_added : RclcppSubscriptionCallbackAdded → Event
  rmw_take : RmwTake → Event
  rcl_take : RclTake → Event
  rclcpp_take : RclcppTake → Event
  rcl_service_init : RclServiceInit → Event
  rclcpp_service_callback_added : RclcppServiceCallbackAdded → Event
  rcl_client_init : RclClientInit → Event
  rcl_timer_init : RclTimerInit → Event
  rclcpp_timer_callback_added : RclcppTimerCallbackAdded → Event
  rclcpp_timer_link_node : RclcppTimerLinkNode → Event
  rclcpp_callback_register : RclcppCallbackRegister → Event
  callback_start : CallbackStart → Event
  callback_end : CallbackEnd → Event
  rcl_lifecycle_state_machine_init : RclLifecycleStateMachineInit → Event
  rcl_lifecycle_transition : RclLifecycleTransition → Event
  rclcpp_executor_get_next_ready : RclCppExecutorGetNextReady → Event
  rclcpp_executor_wait_for_work : RclCppExecutorWaitForWork → Event
  rclcpp_executor_execute : RclCppExecutorExecute → Event
  rclcpp_ipb_to_subscription : RclCppIpbToSubscription → Event
  rclcpp_buffer_to_ipb : RclCppBufferToIpb → Event
  rclcpp_construct_ring_buffer : RclCppConstructRingBuffer → Event
  rclcpp_ring_buffer_enqueue : RclCppRingBufferEnqueue → Event
  rclcpp_ring_buffer_dequeue : RclCppRingBufferDequeue → Event
  rclcpp_ring_buffer_clear : RclCppRingBufferClear → Event

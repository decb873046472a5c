-- ===== src/Events/Processed/Ros2.antt =====
-- src/processed_events/ros2.rs. An object is the address of its cell.
use ros2trace_analyzer.Common.{ℕ, String, Bool, Ref}

pub record RclInit : Type 0 where
  pub context_handle : ℕ
  pub version : String

pub record RclNodeInit : Type 0 where
  pub node : Ref

pub record RmwPublisherInit : Type 0 where
  pub publisher : Ref

pub record RclPublisherInit : Type 0 where
  pub publisher : Ref

pub record RclcppPublish : Type 0 where
  pub message : Ref

pub record RclcppIntraPublish : Type 0 where
  pub message : Ref

pub record RclPublish : Type 0 where
  pub message : Ref

pub record RmwPublish : Type 0 where
  pub message : Ref

pub record RmwSubscriptionInit : Type 0 where
  pub subscription : Ref

pub record RclSubscriptionInit : Type 0 where
  pub subscription : Ref

pub record RclcppSubscriptionInit : Type 0 where
  pub subscription : Ref

pub record RclcppSubscriptionCallbackAdded : Type 0 where
  pub callback : Ref

pub record RmwTake : Type 0 where
  pub message : Ref
  pub taken : Bool

pub record RclTake : Type 0 where
  pub message : Ref
  pub is_new : Bool

pub record RclCppTake : Type 0 where
  pub message : Ref
  pub is_new : Bool

pub record RclServiceInit : Type 0 where
  pub service : Ref

pub record RclCppServiceCallbackAdded : Type 0 where
  pub callback : Ref

pub record RclClientInit : Type 0 where
  pub client : Ref

pub record RclTimerInit : Type 0 where
  pub timer : Ref

pub record RclcppTimerCallbackAdded : Type 0 where
  pub callback : Ref

pub record RclcppTimerLinkNode : Type 0 where
  pub timer : Ref

pub record RclcppCallbackRegister : Type 0 where
  pub callback : Ref

pub record CallbackStart : Type 0 where
  pub is_intra_process : Bool
  pub callback : Ref

pub record CallbackEnd : Type 0 where
  pub callback : Ref

pub data Event : Type 0 where
  rcl_init : RclInit → Event
  rcl_node_init : RclNodeInit → Event
  rmw_publisher_init : RmwPublisherInit → Event
  rcl_publisher_init : RclPublisherInit → Event
  rclcpp_publish : RclcppPublish → Event
  rclcpp_intra_publish : RclcppIntraPublish → Event
  rcl_publish : RclPublish → Event
  rmw_publish : RmwPublish → Event
  rmw_subscription_init : RmwSubscriptionInit → Event
  rcl_subscription_init : RclSubscriptionInit → Event
  rclcpp_subscription_init : RclcppSubscriptionInit → Event
  rclcpp_subscription_callback_added : RclcppSubscriptionCallbackAdded → Event
  rmw_take : RmwTake → Event
  rcl_take : RclTake → Event
  rclcpp_take : RclCppTake → Event
  rcl_service_init : RclServiceInit → Event
  rclcpp_service_callback_added : RclCppServiceCallbackAdded → Event
  rcl_client_init : RclClientInit → Event
  rcl_timer_init : RclTimerInit → Event
  rclcpp_timer_callback_added : RclcppTimerCallbackAdded → Event
  rclcpp_timer_link_node : RclcppTimerLinkNode → Event
  rclcpp_callback_register : RclcppCallbackRegister → Event
  callback_start : CallbackStart → Event
  callback_end : CallbackEnd → Event

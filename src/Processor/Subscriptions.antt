-- ===== src/Processor/Subscriptions.antt =====
-- The handlers of src/processor/ros2.rs for the initialisation of subscriptions.
pub mod Deadlock
use ros2trace_analyzer.Common.{
  ℕ, Ref, Bool, true, false, Option, none, some, Result, ok, err, fault, deadlock, Object,
  ObjectType, object_missing_dependency,
}
use ros2trace_analyzer.Utils.ArcWeak.{weak}
use ros2trace_analyzer.Model.Node
use ros2trace_analyzer.Model.Subscriber
use ros2trace_analyzer.Model.Subscriber.{Subscriber, mark_removed}
use ros2trace_analyzer.Model.Callback
use ros2trace_analyzer.Events.Context.{Context}
use ros2trace_analyzer.Events.Raw.Ros2.{
  RmwSubscriptionInit, RclSubscriptionInit, RclcppSubscriptionInit, RclcppSubscriptionCallbackAdded,
}
use ros2trace_analyzer.Processor.Id.{ContextId, into_id}
use ros2trace_analyzer.Processor.Exec.{
  M, ◌>>=◌, ◌>>◌, pure, raise, expect, get, get_or_err, insert, alloc, modify, call, attempt, entry,
}
use ros2trace_analyzer.Processor.Callers.{Liveness, register_callback}
use ros2trace_analyzer.Processor.Fields

unfoldable pub rmw_replace : RmwSubscriptionInit → ContextId → Ref → Bool → M Ref
rmw_replace event context_id subscriber_arc true = pure subscriber_arc
rmw_replace event context_id subscriber_arc false = do
  modify Fields.subscribers subscriber_arc mark_removed
  subscriber ←
      expect (Subscriber.rmw_init event.rmw_subscription_handle event.gid Subscriber.default)
  new_arc ← alloc Fields.subscribers subscriber
  insert Fields.subscribers_by_rmw (into_id event.rmw_subscription_handle context_id) new_arc
  pure new_arc

unfoldable pub process_rmw_subscription_init : RmwSubscriptionInit → ContextId → M Ref
process_rmw_subscription_init event context_id = do
  subscriber_arc ←
      entry Fields.subscribers_by_rmw Fields.subscribers
        (into_id event.rmw_subscription_handle context_id) (pure Subscriber.default)
  initialized ←
      attempt Fields.subscribers subscriber_arc
        (Subscriber.rmw_init event.rmw_subscription_handle event.gid)
  rmw_replace event context_id subscriber_arc initialized

-- `get_or_err(..).map_err(|e| e.dependent_object(..))?` for the node of an object.
unfoldable pub node_or_missing : ℕ → Object → Option Ref → M Ref
node_or_missing handle dependent (some node_arc) = pure node_arc
node_or_missing handle dependent none = raise (
    object_missing_dependency dependent
      (record { key = handle; object_type = ObjectType.node; key_variable = "rcl_handle" }))

unfoldable pub dependent_node : ℕ → ContextId → Object → M Ref
dependent_node handle context_id dependent = do
  found ← get Fields.nodes_by_rcl (into_id handle context_id)
  node_or_missing handle dependent found

unfoldable pub rcl_init_subscriber : RclSubscriptionInit → Ref → Subscriber → Result Subscriber
rcl_init_subscriber event node_arc =
    Subscriber.rcl_init event.subscription_handle event.topic_name event.queue_depth (weak node_arc)

unfoldable pub rcl_replace :
    RclSubscriptionInit → ContextId → (node_arc subscriber_arc : Ref) → Bool → M Ref
rcl_replace event context_id node_arc subscriber_arc true = pure subscriber_arc
rcl_replace event context_id node_arc subscriber_arc false = do
  modify Fields.subscribers subscriber_arc mark_removed
  subscriber ← expect (Subscriber.set_rmw_handle event.rmw_subscription_handle Subscriber.default)
  subscriber ← expect (rcl_init_subscriber event node_arc subscriber)
  new_arc ← alloc Fields.subscribers subscriber
  insert Fields.subscribers_by_rmw (into_id event.rmw_subscription_handle context_id) new_arc
  pure new_arc

unfoldable pub mark_old_removed : Option Ref → M (Unit {0})
mark_old_removed none = pure tt
mark_old_removed (some old) = modify Fields.subscribers old mark_removed

unfoldable pub process_rcl_subscription_init : RclSubscriptionInit → ContextId → M Ref
process_rcl_subscription_init event context_id = do
  subscriber_arc ←
      entry Fields.subscribers_by_rmw Fields.subscribers
        (into_id event.rmw_subscription_handle context_id)
        (expect (Subscriber.set_rmw_handle event.rmw_subscription_handle Subscriber.default))
  node_arc ← dependent_node event.node_handle context_id (Object.subscriber subscriber_arc)
  initialized ← attempt Fields.subscribers subscriber_arc (rcl_init_subscriber event node_arc)
  subscriber_arc ← rcl_replace event context_id node_arc subscriber_arc initialized
  old ←
      insert Fields.subscribers_by_rcl (into_id event.subscription_handle context_id) subscriber_arc
  mark_old_removed old
  modify Fields.nodes node_arc (Node.add_subscriber subscriber_arc)
  pure subscriber_arc

-- The error of `rclcpp_init` is turned into an `Object` while the guard of the subscriber's lock is
-- alive, and the conversion locks the subscriber again.
unfoldable pub locked_again : Result Subscriber → Result Subscriber
locked_again (ok s) = ok s
locked_again (err e) = fault deadlock
locked_again (fault x) = fault x

unfoldable pub process_rclcpp_subscription_init : RclcppSubscriptionInit → ContextId → M Ref
process_rclcpp_subscription_init event context_id = do
  subscriber_arc ←
      get_or_err Fields.subscribers_by_rcl (into_id event.subscription_handle context_id)
        "rcl_handle" ObjectType.subscriber
  call Fields.subscribers subscriber_arc
      (λ s. locked_again (Subscriber.rclcpp_init event.subscription s))
  old ← insert Fields.subscribers_by_rclcpp (into_id event.subscription context_id) subscriber_arc
  mark_old_removed old
  pure subscriber_arc

unfoldable pub process_rclcpp_subscription_callback_added :
    Liveness → RclcppSubscriptionCallbackAdded → ContextId → Context → M Ref
process_rclcpp_subscription_callback_added alive event context_id context = do
  subscription_arc ←
      get_or_err Fields.subscribers_by_rclcpp (into_id event.subscription context_id)
        "rclcpp_handle" ObjectType.subscriber
  callback_arc ←
      register_callback alive event.callback context_id
        (Callback.new_subscription event.callback subscription_arc context.hostname)
  call Fields.subscribers subscription_arc (Subscriber.set_callback callback_arc)
  pure callback_arc

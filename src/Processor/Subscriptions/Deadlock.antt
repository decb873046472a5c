-- ===== src/Processor/Subscriptions/Deadlock.antt =====
-- Where `process_rclcpp_subscription_init` of src/processor/ros2.rs locks a subscriber twice.
use ros2trace_analyzer.Common.{◌≡◌, ◌↔◌, Ref, true, false, Option, none, some, deadlock, arith}
use ros2trace_analyzer.Utils.Known.{is_known, is_unknown}
use ros2trace_analyzer.Model.Subscriber
use ros2trace_analyzer.Model.Subscriber.{Subscriber}
use ros2trace_analyzer.Events.Raw.Ros2.{RclcppSubscriptionInit}
use ros2trace_analyzer.Processor.Id.{ContextId, into_id}
use ros2trace_analyzer.Processor.State.{World}
use ros2trace_analyzer.Processor.Exec.{faulted, actions, Shows}
use ros2trace_analyzer.Processor.Subscriptions.{
  locked_again, mark_old_removed, process_rclcpp_subscription_init,
}

-- The address leads to a subscriber that is not removed and that has an rclcpp handle.
abbrev pub LeadsToInitialized : Option Ref → World → Type 0
LeadsToInitialized none w = ⊥
LeadsToInitialized (some r) w =
    Shows (w.subscribers.cell r) (λ s. (s.removed ≡ false) × (is_known s.rclcpp_handle ≡ true))

-- `process_rclcpp_subscription_init` deadlocks exactly when the subscription handle of the event leads
-- to a subscriber that is not removed and that has an rclcpp handle already.
pub rclcpp_subscription_init-deadlocks :
    (e : RclcppSubscriptionInit) (c : ContextId) (w : World)
    → (process_rclcpp_subscription_init e c w ≡ faulted deadlock)
      ↔ LeadsToInitialized (w.subscribers_by_rcl (into_id e.subscription_handle c)) w
unfolding process_rclcpp_subscription_init mark_old_removed locked_again actions
    Subscriber.rclcpp_init Subscriber.mark_removed is_unknown is_known
rclcpp_subscription_init-deadlocks e c w = ground arith

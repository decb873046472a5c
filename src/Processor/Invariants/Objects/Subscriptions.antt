-- ===== src/Processor/Invariants/Objects/Subscriptions.antt =====
-- The handlers for subscriptions and takes keep the objects consistent.
use ros2trace_analyzer.Common.{
  ℕ, Ref, Bool, true, false, Option, none, some, ◌≡◌, Result, ok, err, fault,
}
use ros2trace_analyzer.Model.Node.Consistency as NodeConsistency
use ros2trace_analyzer.Model.Subscriber
use ros2trace_analyzer.Model.Subscriber.{Subscriber}
use ros2trace_analyzer.Model.Subscriber.Consistency as SubscriberConsistency
use ros2trace_analyzer.Model.Subscriber.Consistency.{IsConsistent as SubscriberOk}
use ros2trace_analyzer.Model.Callback.Consistency as CallbackConsistency
use ros2trace_analyzer.Events.Context.{Context}
use ros2trace_analyzer.Events.Raw.Ros2.{
  RmwSubscriptionInit, RclSubscriptionInit, RclcppSubscriptionInit, RclcppSubscriptionCallbackAdded,
}
use ros2trace_analyzer.Processor.Id.{ContextId}
use ros2trace_analyzer.Processor.Exec.Keeps.{Keeps, Keeps-bind, Keeps-bind_expect, keeps_rules}
use ros2trace_analyzer.Processor.Exec.Objects.{alloc-Tracks, object_rules}
use ros2trace_analyzer.Processor.Callers.{Liveness}
use ros2trace_analyzer.Processor.Subscriptions.{
  rmw_replace, process_rmw_subscription_init, rcl_init_subscriber, rcl_replace, mark_old_removed,
  process_rcl_subscription_init, locked_again, process_rclcpp_subscription_init,
  process_rclcpp_subscription_callback_added,
}
use ros2trace_analyzer.Processor.Invariants.Objects.Defs.{
  ObjectsAreConsistent as P, heaps, subscribers-Tracks,
}
use ros2trace_analyzer.Processor.Invariants.Objects.Callers.{
  dependent_node-Keeps, register_callback-Keeps,
}

ruleset rules = (
  object_rules, keeps_rules, heaps, NodeConsistency.consistency, SubscriberConsistency.consistency,
  CallbackConsistency.consistency,
)

rmw_replace-Keeps :
    (e : RmwSubscriptionInit) (c : ContextId) (r : Ref) (b : Bool) → Keeps P (rmw_replace e c r b)
unfolding rmw_replace
rmw_replace-Keeps e c r true = search rules
rmw_replace-Keeps e c r false = search rules depth 12

pub process_rmw_subscription_init-Keeps :
    (e : RmwSubscriptionInit) (c : ContextId) → Keeps P (process_rmw_subscription_init e c)
unfolding process_rmw_subscription_init
process_rmw_subscription_init-Keeps e c = search (rules, rmw_replace-Keeps) depth 12

rcl_init_subscriber-Ok :
    (e : RclSubscriptionInit) (n : Ref) (s s' : Subscriber)
    → SubscriberOk s
    → rcl_init_subscriber e n s ≡ ok s'
    → SubscriberOk s'
unfolding rcl_init_subscriber
rcl_init_subscriber-Ok e n s s' = SubscriberConsistency.rcl_init-IsConsistent _ _ _ _ s s'

rcl_replace-Keeps :
    (e : RclSubscriptionInit) (c : ContextId) (n r : Ref) (b : Bool)
    → Keeps P (rcl_replace e c n r b)
unfolding rcl_replace
rcl_replace-Keeps e c n r true = search rules
rcl_replace-Keeps e c n r false = Keeps-bind _ _ (search rules) λ _. Keeps-bind_expect _ _ λ s made.
    Keeps-bind_expect _ _ λ s' initialized.
      let k =
        SubscriberConsistency.set_rmw_handle-IsConsistent e.rmw_subscription_handle
          Subscriber.default s SubscriberConsistency.default-IsConsistent made in
      Keeps-bind _ _
        (alloc-Tracks _ subscribers-Tracks s' (rcl_init_subscriber-Ok e n s s' k initialized))
        λ q. search rules

mark_old_removed-Keeps : (o : Option Ref) → Keeps P (mark_old_removed o)
unfolding mark_old_removed
mark_old_removed-Keeps none = search rules
mark_old_removed-Keeps (some r) = search rules

pub process_rcl_subscription_init-Keeps :
    (e : RclSubscriptionInit) (c : ContextId) → Keeps P (process_rcl_subscription_init e c)
unfolding process_rcl_subscription_init
process_rcl_subscription_init-Keeps e c = Keeps-bind _ _ (search rules depth 8) λ r.
    Keeps-bind _ _ (dependent_node-Keeps _ _ _) λ n.
      Keeps-bind _ _ (search (rules, rcl_init_subscriber-Ok)) λ b.
        Keeps-bind _ _ (rcl_replace-Keeps e c n r b)
          λ s. search (rules, mark_old_removed-Keeps) depth 12

locked_again-eq-ok : (x : Result Subscriber) (s : Subscriber) → locked_again x ≡ ok s → x ≡ ok s
unfolding locked_again
locked_again-eq-ok (ok s') s e = e
locked_again-eq-ok (err x) s e = cc
locked_again-eq-ok (fault x) s e = cc

rclcpp_init-Ok :
    (h : ℕ) (s s' : Subscriber)
    → SubscriberOk s
    → locked_again (Subscriber.rclcpp_init h s) ≡ ok s'
    → SubscriberOk s'
rclcpp_init-Ok h s s' k e =
    SubscriberConsistency.rclcpp_init-IsConsistent h s s' k (locked_again-eq-ok _ s' e)

pub process_rclcpp_subscription_init-Keeps :
    (e : RclcppSubscriptionInit) (c : ContextId) → Keeps P (process_rclcpp_subscription_init e c)
unfolding process_rclcpp_subscription_init
process_rclcpp_subscription_init-Keeps e c =
    search (rules, rclcpp_init-Ok, mark_old_removed-Keeps) depth 12

pub process_rclcpp_subscription_callback_added-Keeps :
    (alive : Liveness) (e : RclcppSubscriptionCallbackAdded) (c : ContextId) (x : Context)
    → Keeps P (process_rclcpp_subscription_callback_added alive e c x)
unfolding process_rclcpp_subscription_callback_added
process_rclcpp_subscription_callback_added-Keeps alive e c x =
    search (rules, register_callback-Keeps) depth 12

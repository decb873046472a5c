-- ===== src/Model/Subscriber/Consistency.antt =====
-- What holds of every `Subscriber` that the processor builds, and the methods that keep it.
use ros2trace_analyzer.Common.{
  ℕ, ◌≤◌, String, Ref, ◌≡◌, true, Option, List, [], ◌∷◌, ok, arith, length, length-append,
}
use ros2trace_analyzer.Utils.ArcWeak.{ArcWeak}
use ros2trace_analyzer.Utils.Known.{is_unknown}
use ros2trace_analyzer.Model.Subscriber.{
  Subscriber, default, taken_messages_max, rmw_init, rcl_init, rclcpp_init, set_rmw_handle,
  set_callback, pop_front, push_bounded, replace_taken_message, take_message, mark_removed,
}

-- What `rcl_init` sets is known together, a gid comes with its rmw handle, and the queue is bounded.
pub record IsConsistent (s : Subscriber) : Type 0 where
  pub topic : is_unknown s.topic_name ≡ is_unknown s.rcl_handle
  pub node : is_unknown s.node ≡ is_unknown s.rcl_handle
  pub depth : is_unknown s.queue_depth ≡ is_unknown s.rcl_handle
  pub gid : is_unknown s.rmw_handle ≡ true → is_unknown s.rmw_gid ≡ true
  pub bounded : length s.taken_message ≤ taken_messages_max

pub default-IsConsistent : IsConsistent default
unfolding is_unknown
default-IsConsistent = ground arith

pub rmw_init-IsConsistent :
    (h : ℕ) (g : List ℕ) (s s' : Subscriber)
    → IsConsistent s
    → rmw_init h g s ≡ ok s'
    → IsConsistent s'
unfolding rmw_init is_unknown
rmw_init-IsConsistent h g s s' c e = ground arith

pub rcl_init-IsConsistent :
    (h : ℕ) (t : String) (q : ℕ) (n : ArcWeak) (s s' : Subscriber)
    → IsConsistent s
    → rcl_init h t q n s ≡ ok s'
    → IsConsistent s'
unfolding rcl_init is_unknown
rcl_init-IsConsistent h t q n s s' c e = ground arith

pub rclcpp_init-IsConsistent :
    (h : ℕ) (s s' : Subscriber) → IsConsistent s → rclcpp_init h s ≡ ok s' → IsConsistent s'
unfolding rclcpp_init is_unknown
rclcpp_init-IsConsistent h s s' c e = ground arith

pub set_rmw_handle-IsConsistent :
    (h : ℕ) (s s' : Subscriber) → IsConsistent s → set_rmw_handle h s ≡ ok s' → IsConsistent s'
unfolding set_rmw_handle is_unknown
set_rmw_handle-IsConsistent h s s' c e = ground arith

pub set_callback-IsConsistent :
    (r : Ref) (s s' : Subscriber) → IsConsistent s → set_callback r s ≡ ok s' → IsConsistent s'
unfolding set_callback is_unknown
set_callback-IsConsistent r s s' c e = ground arith

pub mark_removed-IsConsistent : (s : Subscriber) → IsConsistent s → IsConsistent (mark_removed s)
unfolding mark_removed
mark_removed-IsConsistent s c = ground arith

length-pop_front : (q : List Ref) → length (pop_front q).0 ≤ length q
unfolding pop_front
length-pop_front [] = omega arith
length-pop_front (x ∷ xs) = omega arith

length-push_bounded :
    (m : Ref) (q : List Ref)
    → length q ≤ taken_messages_max
    → length (push_bounded m q).0 ≤ taken_messages_max
unfolding push_bounded pop_front
length-push_bounded m [] h = ground arith
length-push_bounded m (x ∷ xs) h =
    ground (arith, length-append xs (m ∷ []), length-append (x ∷ xs) (m ∷ []))

pub replace_taken_message-IsConsistent :
    (m : Ref) (s : Subscriber) (p : Subscriber × Option Ref)
    → IsConsistent s
    → replace_taken_message m s ≡ ok p
    → IsConsistent p.0
unfolding replace_taken_message
replace_taken_message-IsConsistent m s p c e = ground (arith, length-push_bounded m s.taken_message)

pub take_message-IsConsistent : (s : Subscriber) → IsConsistent s → IsConsistent (take_message s).0
unfolding take_message
take_message-IsConsistent s c = ground (arith, length-pop_front s.taken_message)

pub ruleset consistency = (
  default-IsConsistent, rmw_init-IsConsistent, rcl_init-IsConsistent, rclcpp_init-IsConsistent,
  set_rmw_handle-IsConsistent, set_callback-IsConsistent, mark_removed-IsConsistent,
  replace_taken_message-IsConsistent, take_message-IsConsistent,
)

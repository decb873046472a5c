-- ===== src/Display/Deadlock/Events.antt =====
-- The text of every processed event: it takes no lock that is held, and nothing in it panics.
use ros2trace_analyzer.Common.{String, Ref, false, Option, none, some, [], ◌∷◌, refl}
use ros2trace_analyzer.Model.Subscriber.{Subscriber}
use ros2trace_analyzer.Model.Service.{Service}
use ros2trace_analyzer.Model.Timer.{Timer}
use ros2trace_analyzer.Model.Callback.{Callback}
use ros2trace_analyzer.Events.Processed
use ros2trace_analyzer.Processor.State.{World, Heap}
use ros2trace_analyzer.Display.{Environment, LockType, Printer}
use ros2trace_analyzer.Display.Objects.{
  node_text, subscriber_text, service_text, timer_text, callback_text,
}
use ros2trace_analyzer.Display.Events.{
  locked_between, ros2_text, spin_or_node_text, r2r_text, event_text, full_event_text,
}
use ros2trace_analyzer.Display.Shows.{Shows, shows, between-Shows, with_lock-Shows}
use ros2trace_analyzer.Display.Deadlock.{
  node_text-Shows, publisher_text-Shows, client_text-Shows, subscriber_text-Shows,
  service_text-Shows, timer_text-Shows, callback_of_text-Shows, callback_text-Shows,
}
use ros2trace_analyzer.Display.Deadlock.Messages.{
  publication_text-Shows, subscription_text-Shows, instance_text-Shows, spin_text-Shows,
}

-- An object that is shown with no lock but its own.
locked_between-Shows :
    {A : Type 0} (before behind : String) (t : LockType) (h : Heap A) (r : Ref) (show : A → Printer)
    → ((a : A) → Shows (show a ((t, r) ∷ [])))
    → Shows (locked_between before behind t h r show [])
unfolding locked_between
locked_between-Shows before behind t h r show k =
    between-Shows before behind (with_lock-Shows t h show r [] refl k)

module _ (env : Environment) (w : World) where
  shown_node :
      (before behind : String) (r : Ref)
      → Shows (locked_between before behind LockType.node w.nodes r (node_text env w) [])
  shown_node before behind r =
      locked_between-Shows before behind _ _ r _
        (λ n. node_text-Shows env w n ((LockType.node, r) ∷ []))

  shown_subscriber :
      (s : Subscriber) (r : Ref)
      → Shows (subscriber_text env w false s ((LockType.subscriber, r) ∷ []))
  shown_subscriber s r =
      subscriber_text-Shows env w false _ refl s
        (callback_of_text-Shows env w false s.callback _ refl)

  shown_service :
      (s : Service) (r : Ref) → Shows (service_text env w false s ((LockType.service, r) ∷ []))
  shown_service s r =
      service_text-Shows env w false _ refl s (callback_of_text-Shows env w false s.callback _ refl)

  shown_timer : (t : Timer) (r : Ref) → Shows (timer_text env w false t ((LockType.timer, r) ∷ []))
  shown_timer t r =
      timer_text-Shows env w false _ refl t (callback_of_text-Shows env w false t.callback _ refl)

  shown_callback :
      (c : Callback) (r : Ref) → Shows (callback_text env w false c ((LockType.callback, r) ∷ []))
  shown_callback c r =
      callback_text-Shows env w c _ (record {
        subscriber_free = refl;
        service_free = refl;
        timer_free = refl;
        node_free = refl;
      })

  ros2_text-Shows : (e : Processed.Ros2.Event) → Shows (ros2_text env w e [])
  unfolding ros2_text
  ros2_text-Shows (Processed.Ros2.rcl_init e) = shows
  ros2_text-Shows (Processed.Ros2.rcl_node_init e) = shown_node _ _ e.node
  ros2_text-Shows (Processed.Ros2.rmw_publisher_init e) =
      locked_between-Shows _ _ _ _ e.publisher _ (λ a. publisher_text-Shows env w false a _ refl)
  ros2_text-Shows (Processed.Ros2.rcl_publisher_init e) =
      locked_between-Shows _ _ _ _ e.publisher _ (λ a. publisher_text-Shows env w false a _ refl)
  ros2_text-Shows (Processed.Ros2.rclcpp_publish e) =
      locked_between-Shows _ _ _ _ e.message _
        (λ a. publication_text-Shows env w a _ (record { publisher_free = refl; node_free = refl }))
  ros2_text-Shows (Processed.Ros2.rclcpp_intra_publish e) =
      locked_between-Shows _ _ _ _ e.message _
        (λ a. publication_text-Shows env w a _ (record { publisher_free = refl; node_free = refl }))
  ros2_text-Shows (Processed.Ros2.rcl_publish e) =
      locked_between-Shows _ _ _ _ e.message _
        (λ a. publication_text-Shows env w a _ (record { publisher_free = refl; node_free = refl }))
  ros2_text-Shows (Processed.Ros2.rmw_publish e) =
      locked_between-Shows _ _ _ _ e.message _
        (λ a. publication_text-Shows env w a _ (record { publisher_free = refl; node_free = refl }))
  ros2_text-Shows (Processed.Ros2.rmw_subscription_init e) =
      locked_between-Shows _ _ _ _ e.subscription _ (λ a. shown_subscriber a _)
  ros2_text-Shows (Processed.Ros2.rcl_subscription_init e) =
      locked_between-Shows _ _ _ _ e.subscription _ (λ a. shown_subscriber a _)
  ros2_text-Shows (Processed.Ros2.rclcpp_subscription_init e) =
      locked_between-Shows _ _ _ _ e.subscription _ (λ a. shown_subscriber a _)
  ros2_text-Shows (Processed.Ros2.rclcpp_subscription_callback_added e) =
      locked_between-Shows _ _ _ _ e.callback _ (λ a. shown_callback a _)
  ros2_text-Shows (Processed.Ros2.rmw_take e) =
      locked_between-Shows _ _ _ _ e.message _ (λ a. subscription_text-Shows env w a _)
  ros2_text-Shows (Processed.Ros2.rcl_take e) =
      locked_between-Shows _ _ _ _ e.message _ (λ a. subscription_text-Shows env w a _)
  ros2_text-Shows (Processed.Ros2.rclcpp_take e) =
      locked_between-Shows _ _ _ _ e.message _ (λ a. subscription_text-Shows env w a _)
  ros2_text-Shows (Processed.Ros2.rcl_service_init e) =
      locked_between-Shows _ _ _ _ e.service _ (λ a. shown_service a _)
  ros2_text-Shows (Processed.Ros2.rclcpp_service_callback_added e) =
      locked_between-Shows _ _ _ _ e.callback _ (λ a. shown_callback a _)
  ros2_text-Shows (Processed.Ros2.rcl_client_init e) =
      locked_between-Shows _ _ _ _ e.client _ (λ a. client_text-Shows env w false a _ refl)
  ros2_text-Shows (Processed.Ros2.rcl_timer_init e) =
      locked_between-Shows _ _ _ _ e.timer _ (λ a. shown_timer a _)
  ros2_text-Shows (Processed.Ros2.rclcpp_timer_callback_added e) =
      locked_between-Shows _ _ _ _ e.callback _ (λ a. shown_callback a _)
  ros2_text-Shows (Processed.Ros2.rclcpp_timer_link_node e) =
      locked_between-Shows _ _ _ _ e.timer _ (λ a. shown_timer a _)
  ros2_text-Shows (Processed.Ros2.rclcpp_callback_register e) =
      locked_between-Shows _ _ _ _ e.callback _ (λ a. shown_callback a _)
  ros2_text-Shows (Processed.Ros2.callback_start e) =
      locked_between-Shows _ _ _ _ e.callback _ (λ a. instance_text-Shows env w a _)
  ros2_text-Shows (Processed.Ros2.callback_end e) =
      locked_between-Shows _ _ _ _ e.callback _ (λ a. instance_text-Shows env w a _)

  spin_or_node_text-Shows :
      (name : String) (spin : Option Ref) (node : Ref)
      → Shows (spin_or_node_text env w name spin node [])
  unfolding spin_or_node_text
  spin_or_node_text-Shows name (some spin) node =
      locked_between-Shows _ _ _ _ spin _ (λ s. spin_text-Shows env w s _)
  spin_or_node_text-Shows name none node = shown_node _ _ node

  r2r_text-Shows : (e : Processed.R2r.Event) → Shows (r2r_text env w e [])
  unfolding r2r_text
  r2r_text-Shows (Processed.R2r.spin_start e) =
      locked_between-Shows _ _ _ _ e.spin _ (λ s. spin_text-Shows env w s _)
  r2r_text-Shows (Processed.R2r.spin_end e) = spin_or_node_text-Shows "spin_end" e.spin e.node
  r2r_text-Shows (Processed.R2r.spin_wake e) = spin_or_node_text-Shows "spin_wake" e.spin e.node
  r2r_text-Shows (Processed.R2r.spin_timeout e) =
      spin_or_node_text-Shows "spin_timeout" e.spin e.node
  r2r_text-Shows (Processed.R2r.update_time e) =
      locked_between-Shows _ _ _ _ e.subscriber _ (λ s. shown_subscriber s _)

  event_text-Shows : (e : Processed.Event) → Shows (event_text env w e [])
  unfolding event_text
  event_text-Shows (Processed.ros2 e) = between-Shows _ _ (ros2_text-Shows e)
  event_text-Shows (Processed.r2r e) = between-Shows _ _ (r2r_text-Shows e)

-- In any state of the processor, and whatever weak references can still be upgraded, the text of a processed event
-- takes no lock that is held while it is shown, and nothing in it panics.
pub full_event_text-Shows :
    (env : Environment) (w : World) (e : Processed.FullEvent) → Shows (full_event_text env w e [])
unfolding full_event_text
full_event_text-Shows env w e = between-Shows _ _ (event_text-Shows env w e.event)

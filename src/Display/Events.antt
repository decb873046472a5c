-- ===== src/Display/Events.antt =====
-- `Display` of the processed events, in src/processed_events. An event shows the object that it is about.
use Prim.Native.String.{◌++◌, count}
use ros2trace_analyzer.Common.{ℕ, zero, suc, ◌-◌, String, Ref, false, Option, none, some}
use ros2trace_analyzer.Utils.Format.{decimal, decimal_ℤ, hex, show_bool, debug_text}
use ros2trace_analyzer.Events.Context.{Context}
use ros2trace_analyzer.Events.Processed
use ros2trace_analyzer.Processor.State.{World, Heap}
use ros2trace_analyzer.Display.{Environment, LockType, Printer, text, between, with_lock}
use ros2trace_analyzer.Display.Objects.{
  node_text, publisher_text, subscriber_text, service_text, client_text, timer_text, callback_text,
}
use ros2trace_analyzer.Display.Messages.{
  publication_text, subscription_text, instance_text, spin_text,
}

-- `write!` of a locked object between two texts.
unfoldable pub locked_between :
    {A : Type 0} → String → String → LockType → Heap A → Ref → (A → Printer) → Printer
unfolding between
locked_between before behind t h r show held = between before behind (with_lock t h r show held)

-- `{:09}`: zeros in front of a text that is shorter.
abbrev pub zeros : ℕ → String
zeros zero = ""
zeros (suc n) = "0" ++ zeros n

unfoldable pub padded : ℕ → String → String
padded width s = zeros (width - count s) ++ s

module _ (env : Environment) (w : World) where
  unfoldable pub ros2_text : Processed.Ros2.Event → Printer
  unfolding locked_between
  ros2_text (Processed.Ros2.rcl_init e) =
      text
        ("rcl_init(context: 0x" ++ (hex e.context_handle ++ (", version: " ++ (e.version ++ ")"))))
  ros2_text (Processed.Ros2.rcl_node_init e) =
      locked_between "rcl_node_init(Node(" "))" LockType.node w.nodes e.node (node_text env w)
  ros2_text (Processed.Ros2.rmw_publisher_init e) =
      locked_between "rmw_publisher_init(Publisher(" "))" LockType.publisher w.publishers
        e.publisher (publisher_text env w false)
  ros2_text (Processed.Ros2.rcl_publisher_init e) =
      locked_between "rcl_publisher_init(Publisher(" "))" LockType.publisher w.publishers
        e.publisher (publisher_text env w false)
  ros2_text (Processed.Ros2.rclcpp_publish e) =
      locked_between "rclcpp_publish(Message(" "))" LockType.publication w.publications e.message
        (publication_text env w)
  ros2_text (Processed.Ros2.rclcpp_intra_publish e) =
      locked_between "rclcpp_intra_publish(Message(" "))" LockType.publication w.publications
        e.message (publication_text env w)
  ros2_text (Processed.Ros2.rcl_publish e) =
      locked_between "rcl_publish(Message(" "))" LockType.publication w.publications e.message
        (publication_text env w)
  ros2_text (Processed.Ros2.rmw_publish e) =
      locked_between "rmw_publish(Message(" "))" LockType.publication w.publications e.message
        (publication_text env w)
  ros2_text (Processed.Ros2.rmw_subscription_init e) =
      locked_between "rmw_subscription_init(Subscriber(" "))" LockType.subscriber w.subscribers
        e.subscription (subscriber_text env w false)
  ros2_text (Processed.Ros2.rcl_subscription_init e) =
      locked_between "rcl_subscription_init(Subscriber(" "))" LockType.subscriber w.subscribers
        e.subscription (subscriber_text env w false)
  ros2_text (Processed.Ros2.rclcpp_subscription_init e) =
      locked_between "rclcpp_subscription_init(Subscriber(" "))" LockType.subscriber w.subscribers
        e.subscription (subscriber_text env w false)
  ros2_text (Processed.Ros2.rclcpp_subscription_callback_added e) =
      locked_between "rclcpp_subscription_callback_added(Callback(" "))" LockType.callback
        w.callbacks e.callback (callback_text env w false)
  ros2_text (Processed.Ros2.rmw_take e) =
      locked_between ("rmw_take(taken=" ++ (show_bool e.taken ++ ", Message(")) "))"
        LockType.subscription w.subscriptions e.message (subscription_text env w)
  ros2_text (Processed.Ros2.rcl_take e) =
      locked_between "rcl_take(Message(" "))" LockType.subscription w.subscriptions e.message
        (subscription_text env w)
  ros2_text (Processed.Ros2.rclcpp_take e) =
      locked_between "rclcpp_take(Message(" "))" LockType.subscription w.subscriptions e.message
        (subscription_text env w)
  ros2_text (Processed.Ros2.rcl_service_init e) =
      locked_between "rcl_service_init(Service(" "))" LockType.service w.services e.service
        (service_text env w false)
  ros2_text (Processed.Ros2.rclcpp_service_callback_added e) =
      locked_between "rclcpp_service_callback_added(Callback(" "))" LockType.callback w.callbacks
        e.callback (callback_text env w false)
  ros2_text (Processed.Ros2.rcl_client_init e) =
      locked_between "rcl_client_init(Client(" "))" LockType.client w.clients e.client
        (client_text env w false)
  ros2_text (Processed.Ros2.rcl_timer_init e) =
      locked_between "rcl_timer_init(Timer(" "))" LockType.timer w.timers e.timer
        (timer_text env w false)
  ros2_text (Processed.Ros2.rclcpp_timer_callback_added e) =
      locked_between "rclcpp_timer_callback_added(Callback(" "))" LockType.callback w.callbacks
        e.callback (callback_text env w false)
  ros2_text (Processed.Ros2.rclcpp_timer_link_node e) =
      locked_between "rclcpp_timer_link_node(Timer(" "))" LockType.timer w.timers e.timer
        (timer_text env w false)
  ros2_text (Processed.Ros2.rclcpp_callback_register e) =
      locked_between "rclcpp_callback_register(Callback(" "))" LockType.callback w.callbacks
        e.callback (callback_text env w false)
  ros2_text (Processed.Ros2.callback_start e) =
      locked_between "callback_start(CallbackInstance(" "))" LockType.instance_lock w.instances
        e.callback (instance_text env w)
  ros2_text (Processed.Ros2.callback_end e) =
      locked_between "callback_end(CallbackInstance(" "))" LockType.instance_lock w.instances
        e.callback (instance_text env w)

  -- The spin of the event, or its node where the spin is not known.
  unfoldable pub spin_or_node_text : String → Option Ref → Ref → Printer
  unfolding locked_between
  spin_or_node_text name (some spin) node =
      locked_between (name ++ "(Spin(") "))" LockType.spin w.spins spin (spin_text env w)
  spin_or_node_text name none node =
      locked_between (name ++ "(Node(") "))" LockType.node w.nodes node (node_text env w)

  unfoldable pub r2r_text : Processed.R2r.Event → Printer
  unfolding locked_between spin_or_node_text padded
  r2r_text (Processed.R2r.spin_start e) =
      locked_between "spin_start(Spin(" "))" LockType.spin w.spins e.spin (spin_text env w)
  r2r_text (Processed.R2r.spin_end e) = spin_or_node_text "spin_end" e.spin e.node
  r2r_text (Processed.R2r.spin_wake e) = spin_or_node_text "spin_wake" e.spin e.node
  r2r_text (Processed.R2r.spin_timeout e) = spin_or_node_text "spin_timeout" e.spin e.node
  r2r_text (Processed.R2r.update_time e) =
      locked_between "update_time(subscriber: "
        (", new_time: " ++ (decimal_ℤ e.time_s ++ ("." ++ (padded 9 (decimal e.time_ns) ++ ")"))))
        LockType.subscriber w.subscribers e.subscriber (subscriber_text env w false)

  unfoldable pub event_text : Processed.Event → Printer
  unfolding ros2_text r2r_text between
  event_text (Processed.ros2 e) held = between "ros2:" "" (ros2_text e held)
  event_text (Processed.r2r e) held = between "r2r:" "" (r2r_text e held)

  -- The derived `Debug` of `Context`.
  unfoldable pub context_text : Context → String
  unfolding decimal debug_text
  context_text c =
      "Context { cpu_id: "
      ++ (decimal c.cpu_id
          ++ (", vpid: "
              ++ (decimal c.vpid
                  ++ (", vtid: "
                      ++ (decimal c.vtid
                          ++ (", procname: "
                              ++ (debug_text env.printable c.procname
                                  ++ (", hostname: "
                                      ++ (debug_text env.printable c.hostname ++ " }")))))))))

  unfoldable pub full_event_text : Processed.FullEvent → Printer
  unfolding event_text context_text between
  full_event_text e held =
      between ("[" ++ (env.time e.time ++ "] ")) (" " ++ context_text e.context)
        (event_text e.event held)

-- ===== src/Processor/Tests/Initialisations.antt =====
-- Nodes, publishers, subscriptions, callbacks and hosts that are made known to the processor.
use ros2trace_analyzer.Common.{◌≡◌, refl, ◌↔◌, some, panic, deadlock, already_exists, Object, []}
use ros2trace_analyzer.Model.Callback
use ros2trace_analyzer.Processor.Id.{into_id}
use ros2trace_analyzer.Processor.State.{init}
use ros2trace_analyzer.Processor.Exec.{faulted, Shows}
use ros2trace_analyzer.Processor.Hosts
use ros2trace_analyzer.Processor.Hosts.{host_to_host_id, lookup}
use ros2trace_analyzer.Processor.Hosts.Numbering.{IsNumbered, host_to_host_id-IsNumbered}
use ros2trace_analyzer.Processor.Nodes.Registration.{rcl_node_init-rcl_handle}
use ros2trace_analyzer.Processor.Publishers.{process_rmw_publisher_init}
use ros2trace_analyzer.Processor.Publishers.Registration.{LeadsToRemoved, rmw_publisher_init-panics}
use ros2trace_analyzer.Processor.Subscriptions.{process_rclcpp_subscription_init}
use ros2trace_analyzer.Processor.Subscriptions.Deadlock.{
  LeadsToInitialized, rclcpp_subscription_init-deadlocks,
}
use ros2trace_analyzer.Processor.Callers.{register_callback}
use ros2trace_analyzer.Processor.Callers.Registration.{register_callback-rejects}
use ros2trace_analyzer.Common.{ObjectType, object_missing_dependency}
use ros2trace_analyzer.Events.Raw.Ros2.{RclServiceInit}
use ros2trace_analyzer.Processor.Services.{process_rcl_service_init}
use ros2trace_analyzer.Processor.Services.Registration.{Fails, rcl_service_init-missing_node}
use ros2trace_analyzer.Processor.Tests.Data.{
  steps, after, here, all_alive, node_event, with_node, rmw_publisher_event, with_publisher,
  rclcpp_event, with_rclcpp, with_callback,
}

rcl_node_init-rcl_handle_example : Shows (with_node.nodes.cell 0) (λ n. n.rcl_handle ≡ 20)
unfolding steps
rcl_node_init-rcl_handle_example =
    rcl_node_init-rcl_handle node_event here init {r = 0} {w' = with_node} refl refl

rmw_publisher_init-panics_example :
    (process_rmw_publisher_init rmw_publisher_event here with_publisher ≡ faulted panic)
    ↔ LeadsToRemoved (some 0) with_publisher
unfolding steps
rmw_publisher_init-panics_example =
    rmw_publisher_init-panics rmw_publisher_event here with_publisher

rclcpp_subscription_init-deadlocks_example :
    (process_rclcpp_subscription_init rclcpp_event here with_rclcpp ≡ faulted deadlock)
    ↔ LeadsToInitialized (some 0) with_rclcpp
unfolding steps
rclcpp_subscription_init-deadlocks_example =
    rclcpp_subscription_init-deadlocks rclcpp_event here with_rclcpp

-- The callback 80 is registered a second time.
register_callback-rejects_example :
    Shows
      ((after (
          register_callback all_alive 80 here
            (Callback.new_subscription 80 0 "robot")
            with_callback)).callbacks_by_id
        (into_id 80 here))
      (λ new.
        ((after (
              register_callback all_alive 80 here
                (Callback.new_subscription 80 0 "robot")
                with_callback)).callbacks.cell
            new
          ≡ some (Callback.new_subscription 80 0 "robot"))
        × (already_exists (record {
          key = 80;
          key_variable = "id";
          new_object = Object.callback 0;
          old_object = Object.callback 1;
        })
            ≡ already_exists (record {
              key = 80;
              key_variable = "id";
              new_object = Object.callback 0;
              old_object = Object.callback new;
            })))
unfolding steps
register_callback-rejects_example =
    register_callback-rejects all_alive 80 here (Callback.new_subscription 80 0 "robot")
      with_callback refl

no_hosts-IsNumbered : IsNumbered []
unfolding lookup
no_hosts-IsNumbered = record { below = λ h id e. cc; distinct = λ h h' id e e'. cc }

host_to_host_id-IsNumbered_example :
    IsNumbered (after (host_to_host_id "robot" init)).hostname_to_host_id
unfolding host_to_host_id Hosts.entry_or_insert lookup
host_to_host_id-IsNumbered_example =
    host_to_host_id-IsNumbered "robot" init refl no_hosts-IsNumbered

abbrev service_event : RclServiceInit
service_event = record {
  service_handle = 100;
  node_handle = 10;
  rmw_service_handle = 110;
  service_name = "/reset";
}

rcl_service_init-missing_node_example :
    Fails (process_rcl_service_init service_event here init) (λ x w'.
      Shows (w'.services_by_rcl (into_id 100 here)) (λ s.
        x
        ≡ object_missing_dependency
            (Object.service s)
            (record { key = 10; object_type = ObjectType.node; key_variable = "rcl_handle" })))
rcl_service_init-missing_node_example = rcl_service_init-missing_node service_event here init refl

-- ===== src/Processor/Tests/Data.antt =====
-- The states of a trace: a node with a publisher and a subscription, a callback of the subscription,
-- a message that was published and taken, and a callback that runs.
use ros2trace_analyzer.Common.{pos, true, false, ◌∷◌, [], none}
use ros2trace_analyzer.Utils.Known.{
  known, known_eq, is_known, is_unknown, is_unknown_or_eq, into_option,
}
use ros2trace_analyzer.Utils.ArcWeak.{get_arc}
use ros2trace_analyzer.Model.Gid
use ros2trace_analyzer.Model.Name
use ros2trace_analyzer.Model.Node
use ros2trace_analyzer.Model.Publisher
use ros2trace_analyzer.Model.Publisher.{Publisher}
use ros2trace_analyzer.Model.Subscriber
use ros2trace_analyzer.Model.Subscriber.{Subscriber}
use ros2trace_analyzer.Model.Callback
use ros2trace_analyzer.Model.PublicationMessage
use ros2trace_analyzer.Model.SubscriptionMessage
use ros2trace_analyzer.Model.SpinInstance
use ros2trace_analyzer.Events.Context.{Context}
use ros2trace_analyzer.Events.Raw.Ros2.{
  RclNodeInit, RmwPublisherInit, RclPublisherInit, RclSubscriptionInit, RclcppSubscriptionInit,
  RclcppSubscriptionCallbackAdded, RmwTake, CallbackStart,
}
use ros2trace_analyzer.Events.Raw.R2r.{SpinStart}
use ros2trace_analyzer.Processor.Id.{ContextId, into_id, id_eq}
use ros2trace_analyzer.Processor.State.{World, Heap, init, update, no_entries, map_insert, topic_eq}
use ros2trace_analyzer.Processor.Exec.{Run, done, failed, faulted, actions}
use ros2trace_analyzer.Processor.Callers
use ros2trace_analyzer.Processor.Callers.{Liveness}
use ros2trace_analyzer.Processor.Nodes
use ros2trace_analyzer.Processor.Nodes.{process_rcl_node_init}
use ros2trace_analyzer.Processor.Publishers
use ros2trace_analyzer.Processor.Publishers.{process_rmw_publisher_init, process_rcl_publisher_init}
use ros2trace_analyzer.Processor.Publications
use ros2trace_analyzer.Processor.Publications.Pipeline.{publish_through}
use ros2trace_analyzer.Processor.Subscriptions
use ros2trace_analyzer.Processor.Subscriptions.{
  process_rcl_subscription_init, process_rclcpp_subscription_init,
  process_rclcpp_subscription_callback_added,
}
use ros2trace_analyzer.Processor.Takes
use ros2trace_analyzer.Processor.Takes.{process_rmw_take}
use ros2trace_analyzer.Processor.Callbacks
use ros2trace_analyzer.Processor.Callbacks.{process_callback_start}
use ros2trace_analyzer.Processor.Spins
use ros2trace_analyzer.Processor.Spins.{process_spin_start}

-- To unfold this is to unfold what the states below compute with.
unfoldable pub steps : Unit {0}
unfolding id_eq known_eq is_known is_unknown is_unknown_or_eq into_option get_arc topic_eq actions
    Gid.new Gid.gid_eq Name.new Node.new Node.rcl_init Node.add_publisher Node.add_subscriber
    Node.replace_spin_instance Publisher.rmw_init Publisher.rcl_init Publisher.set_rmw_handle
    Publisher.mark_removed Subscriber.rcl_init Subscriber.rclcpp_init Subscriber.set_rmw_handle
    Subscriber.set_callback Subscriber.replace_taken_message Subscriber.push_bounded
    Subscriber.pop_front Subscriber.take_message Subscriber.mark_removed Callback.new
    Callback.new_subscription PublicationMessage.new PublicationMessage.set_publisher
    PublicationMessage.rclcpp_publish PublicationMessage.rcl_publish PublicationMessage.rmw_publish
    SubscriptionMessage.new SubscriptionMessage.rmw_take_matched
    SubscriptionMessage.rmw_take_unmatched SpinInstance.new Callers.register_callback
    Callers.filter_old Callers.reject_old Callers.filter_out_removed_callers
    Callers.keep_unless_removed Callers.caller_removed Callers.is_removed Callers.subscriber_removed
    Nodes.process_rcl_node_init Nodes.node_entry Nodes.rcl_init_node
    Publishers.process_rmw_publisher_init Publishers.rmw_replace
    Publishers.process_rcl_publisher_init Publishers.node_of_publisher Publishers.rcl_init_publisher
    Publishers.rcl_replace Publishers.mark_old_removed publish_through
    Publications.process_rclcpp_publish Publications.unwrap_or_new Publications.process_rcl_publish
    Publications.both_publishers Publications.topic_of_publication Publications.publisher_by_rmw
    Publications.insert_published Publications.record_publication Publications.process_rmw_publish
    Subscriptions.process_rcl_subscription_init Subscriptions.dependent_node
    Subscriptions.node_or_missing Subscriptions.rcl_init_subscriber Subscriptions.rcl_replace
    Subscriptions.mark_old_removed Subscriptions.locked_again
    Subscriptions.process_rclcpp_subscription_init
    Subscriptions.process_rclcpp_subscription_callback_added Takes.process_rmw_take
    Takes.find_published Takes.or_lookup Takes.take_message Takes.keep_taken
    Callbacks.get_callback_by_id Callbacks.trigger_of Callbacks.assert_idle Callbacks.new_instance
    Callbacks.process_callback_start Spins.duration_new Spins.node_of_spin Spins.process_spin_start
steps = tt

abbrev pub after : {A : Type 0} → Run A → World
after (done a w) = w
after (failed e w) = w
after (faulted x) = init

abbrev pub here : ContextId
here = record { vpid = 7; host_id = 0 }

abbrev pub context : Context
context = record { cpu_id = 0; vpid = 7; vtid = 7; procname = "demo"; hostname = "robot" }

abbrev pub all_alive : Liveness
all_alive = record { subscriber = λ _. true; service = λ _. true; timer = λ _. true }

abbrev pub node_event : RclNodeInit
node_event = record {
  node_handle = 10;
  rmw_handle = 20;
  node_name = "talker";
  namespace = "/demo/";
}

abbrev pub with_node : World
with_node = after (process_rcl_node_init node_event here init)

abbrev pub rmw_publisher_event : RmwPublisherInit
rmw_publisher_event = record { rmw_publisher_handle = 40; gid = 1 ∷ 2 ∷ [] }

abbrev pub publisher_event : RclPublisherInit
publisher_event = record {
  publisher_handle = 30;
  node_handle = 10;
  rmw_publisher_handle = 40;
  topic_name = "/chatter";
  queue_depth = 7;
}

abbrev pub with_publisher : World
with_publisher = after (process_rcl_publisher_init publisher_event here with_node)

abbrev pub subscription_event : RclSubscriptionInit
subscription_event = record {
  subscription_handle = 50;
  node_handle = 10;
  rmw_subscription_handle = 60;
  topic_name = "/chatter";
  queue_depth = 7;
}

abbrev pub with_subscription : World
with_subscription = after (process_rcl_subscription_init subscription_event here with_publisher)

abbrev pub rclcpp_event : RclcppSubscriptionInit
rclcpp_event = record { subscription_handle = 50; subscription = 70 }

abbrev pub with_rclcpp : World
with_rclcpp = after (process_rclcpp_subscription_init rclcpp_event here with_subscription)

abbrev pub callback_event : RclcppSubscriptionCallbackAdded
callback_event = record { subscription = 70; callback = 80 }

abbrev pub with_callback : World
with_callback =
    after
      (process_rclcpp_subscription_callback_added all_alive callback_event here context with_rclcpp)

-- A publisher and a subscriber of one topic, and a callback of the subscriber.
abbrev pub talker : Publisher
talker = record Publisher.default {
  rmw_handle = known 40;
  rcl_handle = known 30;
  topic_name = known "/chatter";
}

abbrev pub listener : Subscriber
listener = record Subscriber.default {
  rmw_handle = known 60;
  topic_name = known "/chatter";
  callback = known 0;
}

abbrev pub one : {A : Type 0} → A → Heap A
one a = record { next = 1; cell = update (λ _. none) 0 a }

abbrev pub with_topic : World
with_topic = record init {
  publishers_by_rmw = map_insert no_entries (into_id 40 here) 0;
  publishers_by_rcl = map_insert no_entries (into_id 30 here) 0;
  subscribers_by_rmw = map_insert no_entries (into_id 60 here) 0;
  publishers = one talker;
  subscribers = one listener;
}

abbrev pub with_publication : World
with_publication = after (publish_through 90 30 40 (pos 5) (pos 1) (pos 2) (pos 3) here with_topic)

abbrev pub take_event : RmwTake
take_event = record {
  rmw_subscription_handle = 60;
  message = 91;
  source_timestamp = pos 5;
  taken = true;
}

abbrev pub with_message : World
with_message = after (process_rmw_take take_event (pos 6) here with_publication)

abbrev pub start_event : CallbackStart
start_event = record { callback = 80; is_intra_process = false }

-- The subscriber has taken a message.
abbrev pub with_waiting : World
with_waiting = record init {
  callbacks_by_id = map_insert no_entries (into_id 80 here) 0;
  callbacks = one (Callback.new_subscription 80 0 "robot");
  subscribers = one (record listener { taken_message = 3 ∷ [] });
}

abbrev pub with_running : World
with_running = after (process_callback_start all_alive start_event (pos 8) here with_waiting)

abbrev pub spin_event : SpinStart
spin_event = record { node_handle = 10; timeout_s = 1; timeout_ns = 500 }

abbrev pub with_spin : World
with_spin = after (process_spin_start spin_event (pos 4) here with_node)

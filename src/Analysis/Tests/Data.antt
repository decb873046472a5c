-- ===== src/Analysis/Tests/Data.antt =====
-- A state with a publisher and a subscriber of one topic, callbacks of a subscription, a timer and a service, an
-- execution of a callback, and a message that was published and taken.
use ros2trace_analyzer.Common.{pos, false, List, [], ◌∷◌, none, length, get_elem?}
use ros2trace_analyzer.Utils.ArcWeak.{arc}
use ros2trace_analyzer.Utils.Known.{known, unknown}
use ros2trace_analyzer.Model.Publisher
use ros2trace_analyzer.Model.Subscriber
use ros2trace_analyzer.Model.Service.{Service}
use ros2trace_analyzer.Model.Callback.{Callback, CallbackCaller}
use ros2trace_analyzer.Model.CallbackInstance.{CallbackInstance, timer}
use ros2trace_analyzer.Model.PublicationMessage.{PublicationMessage}
use ros2trace_analyzer.Model.SubscriptionMessage.{SubscriptionMessage, fully}
use ros2trace_analyzer.Events.Context.{Context}
use ros2trace_analyzer.Processor.State.{World, Heap, init}

abbrev pub heap : {A : Type 0} → List A → Heap A
heap objects = record { next = length objects; cell = λ r. get_elem? objects r }

abbrev pub context : Context
context = record { cpu_id = 1; vpid = 7; vtid = 8; procname = "demo"; hostname = "robot" }

abbrev callback_of : CallbackCaller → Callback
callback_of caller = record {
  handle = 50;
  caller = known caller;
  name = unknown;
  running_instance = none;
  hostname = "robot";
  is_removed = false;
}

-- Callback 0 is that of the subscriber, 1 that of a timer, 2 that of a service.
abbrev pub callbacks : List Callback
callbacks =
    callback_of (CallbackCaller.subscription (arc 0))
    ∷ callback_of (CallbackCaller.timer (arc 0))
    ∷ callback_of (CallbackCaller.service (arc 0))
    ∷ []

abbrev pub timer_instance : CallbackInstance
timer_instance = record {
  start_time = pos 10;
  end_time = known (pos 14);
  callback = 1;
  trigger = timer 0;
}

abbrev pub publication : PublicationMessage
publication = record {
  ptr = 90;
  publisher = known 0;
  sender_timestamp = known (pos 20);
  rmw_publish_time = known (pos 20);
  rcl_publish_time = unknown;
  rclcpp_publish_time = unknown;
}

abbrev pub taken : SubscriptionMessage
taken = record {
  ptr = 91;
  message = fully 0;
  subscriber = known 0;
  rmw_receive_time = known (pos 27);
  rcl_receive_time = unknown;
  rclcpp_receive_time = unknown;
}

abbrev pub a_service : Service
a_service = record {
  rmw_handle = unknown;
  rcl_handle = 60;
  rclcpp_handle = unknown;
  name = known "reset";
  node = known (arc 0);
  callback = known 2;
  removed = false;
}

abbrev pub world : World
world = record init {
  publishers = heap (record Publisher.default { topic_name = known "pose" } ∷ []);
  subscribers = heap (record Subscriber.default { topic_name = known "pose" } ∷ []);
  services = heap (a_service ∷ []);
  callbacks = heap callbacks;
  instances = heap (timer_instance ∷ []);
  publications = heap (publication ∷ []);
  subscriptions = heap (taken ∷ []);
}

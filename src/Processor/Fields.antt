-- ===== src/Processor/Fields.antt =====
-- The fields of the state, as places to read and write.
use ros2trace_analyzer.Processor.State.{Map, Heap}
use ros2trace_analyzer.Processor.Exec.{Field}
use ros2trace_analyzer.Model.Node.{Node}
use ros2trace_analyzer.Model.Subscriber.{Subscriber}
use ros2trace_analyzer.Model.Publisher.{Publisher}
use ros2trace_analyzer.Model.Service.{Service}
use ros2trace_analyzer.Model.Client.{Client}
use ros2trace_analyzer.Model.Timer.{Timer}
use ros2trace_analyzer.Model.Callback.{Callback}
use ros2trace_analyzer.Model.CallbackInstance.{CallbackInstance}
use ros2trace_analyzer.Model.PublicationMessage.{PublicationMessage}
use ros2trace_analyzer.Model.SubscriptionMessage.{SubscriptionMessage}
use ros2trace_analyzer.Model.SpinInstance.{SpinInstance}

abbrev pub nodes_by_rcl : Field Map
nodes_by_rcl = record { read = λ w. w.nodes_by_rcl; write = λ x w. record w { nodes_by_rcl = x } }

abbrev pub subscribers_by_rmw : Field Map
subscribers_by_rmw = record {
  read = λ w. w.subscribers_by_rmw;
  write = λ x w. record w { subscribers_by_rmw = x };
}

abbrev pub subscribers_by_rcl : Field Map
subscribers_by_rcl = record {
  read = λ w. w.subscribers_by_rcl;
  write = λ x w. record w { subscribers_by_rcl = x };
}

abbrev pub subscribers_by_rclcpp : Field Map
subscribers_by_rclcpp = record {
  read = λ w. w.subscribers_by_rclcpp;
  write = λ x w. record w { subscribers_by_rclcpp = x };
}

abbrev pub publishers_by_rmw : Field Map
publishers_by_rmw = record {
  read = λ w. w.publishers_by_rmw;
  write = λ x w. record w { publishers_by_rmw = x };
}

abbrev pub publishers_by_rcl : Field Map
publishers_by_rcl = record {
  read = λ w. w.publishers_by_rcl;
  write = λ x w. record w { publishers_by_rcl = x };
}

abbrev pub services_by_rcl : Field Map
services_by_rcl = record {
  read = λ w. w.services_by_rcl;
  write = λ x w. record w { services_by_rcl = x };
}

abbrev pub clients_by_rcl : Field Map
clients_by_rcl = record {
  read = λ w. w.clients_by_rcl;
  write = λ x w. record w { clients_by_rcl = x };
}

abbrev pub timers_by_rcl : Field Map
timers_by_rcl = record {
  read = λ w. w.timers_by_rcl;
  write = λ x w. record w { timers_by_rcl = x };
}

abbrev pub callbacks_by_id : Field Map
callbacks_by_id = record {
  read = λ w. w.callbacks_by_id;
  write = λ x w. record w { callbacks_by_id = x };
}

abbrev pub received_messages : Field Map
received_messages = record {
  read = λ w. w.received_messages;
  write = λ x w. record w { received_messages = x };
}

abbrev pub published_messages_by_rclcpp : Field Map
published_messages_by_rclcpp = record {
  read = λ w. w.published_messages_by_rclcpp;
  write = λ x w. record w { published_messages_by_rclcpp = x };
}

abbrev pub published_messages_by_rcl : Field Map
published_messages_by_rcl = record {
  read = λ w. w.published_messages_by_rcl;
  write = λ x w. record w { published_messages_by_rcl = x };
}

abbrev pub nodes : Field (Heap Node)
nodes = record { read = λ w. w.nodes; write = λ x w. record w { nodes = x } }

abbrev pub subscribers : Field (Heap Subscriber)
subscribers = record { read = λ w. w.subscribers; write = λ x w. record w { subscribers = x } }

abbrev pub publishers : Field (Heap Publisher)
publishers = record { read = λ w. w.publishers; write = λ x w. record w { publishers = x } }

abbrev pub services : Field (Heap Service)
services = record { read = λ w. w.services; write = λ x w. record w { services = x } }

abbrev pub clients : Field (Heap Client)
clients = record { read = λ w. w.clients; write = λ x w. record w { clients = x } }

abbrev pub timers : Field (Heap Timer)
timers = record { read = λ w. w.timers; write = λ x w. record w { timers = x } }

abbrev pub callbacks : Field (Heap Callback)
callbacks = record { read = λ w. w.callbacks; write = λ x w. record w { callbacks = x } }

abbrev pub instances : Field (Heap CallbackInstance)
instances = record { read = λ w. w.instances; write = λ x w. record w { instances = x } }

abbrev pub publications : Field (Heap PublicationMessage)
publications = record { read = λ w. w.publications; write = λ x w. record w { publications = x } }

abbrev pub subscriptions : Field (Heap SubscriptionMessage)
subscriptions = record {
  read = λ w. w.subscriptions;
  write = λ x w. record w { subscriptions = x };
}

abbrev pub spins : Field (Heap SpinInstance)
spins = record { read = λ w. w.spins; write = λ x w. record w { spins = x } }

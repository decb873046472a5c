-- ===== src/Analysis/DependencyGraph.antt =====
-- src/analysis/dependency_graph.rs: which publishers, subscribers, services, timers and callbacks activate
-- each other, and how long it takes. The messages of the assertions are left out.
pub mod Graph
pub mod Uses
pub mod Ranges
pub mod Dot
pub mod History
pub mod Trace
pub mod Invariant
use ros2trace_analyzer.Common.{
  ℕ, ℤ, ◌+◌, i64_max, int_eq, Ref, Bool, true, false, Option, none, some, List, [], ◌∷◌, ◌++◌,
  length, ◌==◌, Result, ok, err, fault, panic, not, if◌then◌else◌,
}
use ros2trace_analyzer.Utils.ArcWeak.{ArcWeak, get_arc}
use ros2trace_analyzer.Utils.Known.{into_option}
use ros2trace_analyzer.Model.PublicationMessage.{Time, get_publication_time}
use ros2trace_analyzer.Model.SubscriptionMessage.{get_publication_message}
use ros2trace_analyzer.Model.CallbackInstance.{
  CallbackTrigger, CallbackInstance, subscription_message, service, timer,
}
use ros2trace_analyzer.Events.Context.{Context}
use ros2trace_analyzer.Events.Processed
use ros2trace_analyzer.Processor.State.{World}
use ros2trace_analyzer.Analysis.Base.{
  ◌>>=◌, ◌>>◌, assert, expect, lock, sub_times, panic_on_some, is_empty, thread_of, thread_key,
}
use ros2trace_analyzer.Analysis.Table.{Table, get, insert, remove, update, or_default, ref_key}
use ros2trace_analyzer.Analysis.DependencyGraph.Graph.{
  Edge, EdgeData, edge_key, DependencyGraph, PublisherNode, SubscriberNode, TimerNode, CallbackNode,
  publication_in_callback, subscriber_callback_invocation, service_callback_invocation,
  timer_callback_invocation, publisher_subscriber_communication,
}
use ros2trace_analyzer.Analysis.DependencyGraph.Uses.{
  next_delay, use_edge, on_edges, activate, no_data, edge_data, extend,
}

abbrev pub new_timer : TimerNode
new_timer = record { activation_delay = []; last_activation = none }

unfoldable pub process_timer_invocation : Ref → Time → DependencyGraph → Result DependencyGraph
unfolding next_delay
process_timer_invocation timer_arc event_time g = do
  let timer_node = or_default new_timer (get timer_arc g.timer_nodes)
  delays ← next_delay event_time timer_node.last_activation timer_node.activation_delay
  ok (record g {
    timer_nodes =
        insert timer_arc (record { activation_delay = delays; last_activation = some event_time })
          g.timer_nodes;
  })

-- `LATENCY_INVALID` where the node never woke up.
abbrev pub latency_since : Time → Option Time → Result ℤ
latency_since event_time none = ok i64_max
latency_since event_time (some wake_up_time) = sub_times event_time wake_up_time

module _ (node_alive : Ref → Bool) where
  -- The time since the node of a timer or a service woke up.
  unfoldable pub wake_up_latency : Option ArcWeak → Time → Table Ref Time → Result ℤ
  unfolding get_arc
  wake_up_latency node event_time wake_ups = do
    node_weak ← expect node
    node_arc ← expect (get_arc node_alive node_weak)
    latency_since event_time (get node_arc wake_ups)

  unfoldable pub process_edge_to_callback :
      World → Ref → CallbackTrigger → Time → DependencyGraph → Result DependencyGraph
  unfolding process_timer_invocation use_edge wake_up_latency
  process_edge_to_callback w callback (subscription_message msg) event_time g = do
    message ← lock w.subscriptions msg
    subscriber ← expect (into_option message.subscriber)
    on_edges (subscriber_callback_invocation subscriber callback) event_time
        (expect (into_option message.rmw_receive_time) >>= λ receive_time.
          sub_times event_time receive_time)
        g
  process_edge_to_callback w callback (timer timer_arc) event_time g = do
    g' ← process_timer_invocation timer_arc event_time g
    on_edges (timer_callback_invocation timer_arc callback) event_time
        (lock w.timers timer_arc >>= λ t.
          wake_up_latency (into_option t.node) event_time g'.last_spin_wake_up_time_for_node)
        g'
  process_edge_to_callback w callback (service service_arc) event_time g =
      on_edges (service_callback_invocation service_arc callback) event_time
        (lock w.services service_arc >>= λ s.
          wake_up_latency (into_option s.node) event_time g.last_spin_wake_up_time_for_node)
        g

  abbrev pub new_callback : CallbackNode
  new_callback = record { activation_delay = []; durations = []; last_activation = none }

  unfoldable pub activate_callback : Time → Time → Option Time → CallbackNode → Result CallbackNode
  activate_callback event_time start_time none node =
      ok (record node { last_activation = some event_time })
  activate_callback event_time start_time (some previous_activation) node = do
    assert (int_eq event_time start_time)
    activation_delay ← sub_times event_time previous_activation
    ok (record node {
      activation_delay = node.activation_delay ++ activation_delay ∷ [];
      last_activation = some event_time;
    })

  unfoldable pub process_callback_start :
      World → Ref → Time → Context → DependencyGraph → Result DependencyGraph
  unfolding process_edge_to_callback activate_callback
  process_callback_start w instance event_time context g = do
    panic_on_some (get (thread_of context) g.running_callbacks)
    callback_instance ← lock w.instances instance
    let callback = callback_instance.callback
    let callback_node = or_default new_callback (get callback g.callback_nodes)
    node ←
        activate_callback event_time callback_instance.start_time callback_node.last_activation
          callback_node
    process_edge_to_callback w callback callback_instance.trigger event_time (record g {
      running_callbacks = insert (thread_of context) instance g.running_callbacks;
      callback_nodes = insert callback node g.callback_nodes;
    })

-- Another callback than the expected one was running.
abbrev pub panic_on_other : Ref → Option Ref → Result (Unit {0})
panic_on_other expected none = ok tt
panic_on_other expected (some old) = assert (old == expected)

unfoldable pub process_callback_end :
    World → Ref → Time → Context → DependencyGraph → Result DependencyGraph
process_callback_end w instance event_time context g = do
  panic_on_other instance (get (thread_of context) g.running_callbacks)
  callback_instance ← lock w.instances instance
  let callback = callback_instance.callback
  callback_node ← expect (get callback g.callback_nodes)
  start_time ← expect callback_node.last_activation
  duration ← sub_times event_time start_time
  end_time_instance ← expect (into_option callback_instance.end_time)
  assert (int_eq callback_instance.start_time start_time)
  assert (int_eq end_time_instance event_time)
  ok (record g {
    running_callbacks = remove (thread_of context) g.running_callbacks;
    callback_nodes =
        insert callback
          (record callback_node { durations = callback_node.durations ++ duration ∷ [] })
          g.callback_nodes;
  })

abbrev pub new_subscriber : SubscriberNode
new_subscriber = record { take_delay = []; last_take = none }

-- A message that cannot be associated with a publication belongs to no edge.
unfoldable pub process_communication :
    World → Ref → Option Ref → Time → DependencyGraph → Result DependencyGraph
unfolding use_edge
process_communication w subscriber none event_time g = ok g
process_communication w subscriber (some publication) event_time g = do
  publication_message ← lock w.publications publication
  publisher ← expect (into_option publication_message.publisher)
  on_edges (publisher_subscriber_communication publisher subscriber) event_time
      (expect (get_publication_time publication_message) >>= λ publication_time.
        sub_times event_time publication_time)
      g

unfoldable pub process_rmw_take :
    World → Ref → Bool → Time → DependencyGraph → Result DependencyGraph
unfolding next_delay process_communication
process_rmw_take w message_arc false event_time g = ok g
process_rmw_take w message_arc true event_time g = do
  message ← lock w.subscriptions message_arc
  subscriber ← expect (into_option message.subscriber)
  let subscriber_node = or_default new_subscriber (get subscriber g.subscriber_nodes)
  delays ← next_delay event_time subscriber_node.last_take subscriber_node.take_delay
  process_communication w subscriber (get_publication_message message) event_time (record g {
    subscriber_nodes =
        insert subscriber (record { take_delay = delays; last_take = some event_time })
          g.subscriber_nodes;
  })

abbrev pub new_publisher : PublisherNode
new_publisher = record { publication_delay = []; last_publication = none }

-- A publication while no callback runs on its thread belongs to no edge.
unfoldable pub process_publication_in :
    World → Ref → Option Ref → Time → DependencyGraph → Result DependencyGraph
unfolding use_edge
process_publication_in w publisher none event_time g = ok g
process_publication_in w publisher (some running) event_time g = do
  callback_instance ← lock w.instances running
  on_edges (publication_in_callback publisher callback_instance.callback) event_time
      (sub_times event_time callback_instance.start_time) g

unfoldable pub process_publication :
    World → Ref → Time → Context → DependencyGraph → Result DependencyGraph
unfolding next_delay process_publication_in
process_publication w message event_time context g = do
  publication ← lock w.publications message
  publisher ← expect (into_option publication.publisher)
  let publisher_node = or_default new_publisher (get publisher g.publisher_nodes)
  delays ← next_delay event_time publisher_node.last_publication publisher_node.publication_delay
  process_publication_in w publisher (get (thread_of context) g.running_callbacks) event_time
      (record g {
        publisher_nodes =
            insert publisher
              (record { publication_delay = delays; last_publication = some event_time })
              g.publisher_nodes;
      })

abbrev pub is_known : {A : Type 0} → Option A → Bool
is_known none = false
is_known (some x) = true

unfoldable pub process_event :
    (Ref → Bool) → World → Processed.FullEvent → DependencyGraph → Result DependencyGraph
process_event node_alive w full_event g = elim full_event.event [
  | Processed.ros2 (Processed.Ros2.rcl_node_init event) ↦
      ok (record g { ros_nodes = g.ros_nodes ++ event.node ∷ [] })
  | Processed.ros2 (Processed.Ros2.callback_start event) ↦
      process_callback_start node_alive w event.callback full_event.time full_event.context g
  | Processed.ros2 (Processed.Ros2.callback_end event) ↦
      process_callback_end w event.callback full_event.time full_event.context g
  | Processed.ros2 (Processed.Ros2.rmw_take event) ↦
      process_rmw_take w event.message event.taken full_event.time g
  | Processed.ros2 (Processed.Ros2.rmw_publish event) ↦
      process_publication w event.message full_event.time full_event.context g
  | Processed.r2r (Processed.R2r.spin_wake event) ↦ ok (record g {
    last_spin_wake_up_time_for_node =
        insert event.node full_event.time g.last_spin_wake_up_time_for_node;
  })
  | Processed.r2r (Processed.R2r.spin_end event) ↦
      (assert (is_known (get event.node g.last_spin_wake_up_time_for_node)) >> ok g)
  | _ ↦ ok g
]

unfoldable pub finalize : DependencyGraph → DependencyGraph
finalize g = record g { running_callbacks = [] }

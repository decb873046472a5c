-- ===== src/Analysis/Tests/Graphs.antt =====
-- The dependency graph and the graph of callbacks, on small states.
use mathlib.Core.List.{Memᴰ}
use ros2trace_analyzer.Common.{
  ℤ, pos, ◌-ℤ◌, is_i64, i64_max, i64_min, Ref, Bool, true, List, [], ◌∷◌, none, some, ok, ◌≡◌, ◌≢◌,
  refl, ◌⊎◌, inl, inr, Bool-cases, if◌then◌else◌,
}
use ros2trace_analyzer.Utils.ArcWeak.{get_arc}
use ros2trace_analyzer.Utils.Known.{into_option}
use ros2trace_analyzer.Events.Processed
use ros2trace_analyzer.Processor.State.{World}
use ros2trace_analyzer.Processor.Callers.{Liveness}
use ros2trace_analyzer.Statistics.Tests.{thousandths}
use ros2trace_analyzer.Analysis.Table.{Table, get, insert, push, update, contains}
use ros2trace_analyzer.Analysis.EventAnalysis.{process_all}
use ros2trace_analyzer.Analysis.PublicationInCallback
use ros2trace_analyzer.Analysis.CallbackDependency.{
  CallbackDependency, Graph, construct_callback_graph, add_timer_nodes, add_message_nodes, add_node,
  all_edges, topic_of_callback, topic_of_publisher, edges_to_topic, edges_to,
}
use ros2trace_analyzer.Analysis.CallbackDependency.Edges.{
  JoinsByTopic, construct_callback_graph-JoinsByTopic,
}
use ros2trace_analyzer.Analysis.CallbackDependency.Services.{construct_callback_graph-service}
use ros2trace_analyzer.Analysis.DependencyGraph
use ros2trace_analyzer.Analysis.DependencyGraph.{
  process_edge_to_callback, process_publication, process_publication_in, wake_up_latency,
}
use ros2trace_analyzer.Analysis.DependencyGraph.Uses.{
  use_edge, edge_data, next_delay, extend, activate,
}
use ros2trace_analyzer.Analysis.DependencyGraph.Graph.{
  Edge, edge_eq, EdgeData, DependencyGraph, new,
}
use ros2trace_analyzer.Analysis.DependencyGraph.History.{Use, summary}
use ros2trace_analyzer.Analysis.DependencyGraph.Invariant.{Summarises, use_edge-used}
use ros2trace_analyzer.Analysis.DependencyGraph.Invariant.Events.{process_all-uses}
use ros2trace_analyzer.Analysis.DependencyGraph.Trace.{used}
use ros2trace_analyzer.Model.PublicationMessage.{get_publication_time}
use ros2trace_analyzer.Model.SubscriptionMessage.{get_publication_message}
use ros2trace_analyzer.Analysis.DependencyGraph.Ranges.{no_range, validate_range}
use ros2trace_analyzer.Analysis.DependencyGraph.Ranges.Bounds.{
  update_all, Holds, validate_range-update_all,
}
use ros2trace_analyzer.Analysis.DependencyGraph.Dot
use ros2trace_analyzer.Analysis.DependencyGraph.Dot.{DisplayAsDot, no_numbers}
use ros2trace_analyzer.Analysis.DependencyGraph.Dot.Services.{process_edge_to_callback-new}
use ros2trace_analyzer.Analysis.Tests.Data.{world, context}

abbrev all_alive : Liveness
all_alive = record { subscriber = λ _. true; service = λ _. true; timer = λ _. true }

abbrev alive : Ref → Bool
alive r = true

abbrev an_edge : Edge
an_edge = Edge.publication_in_callback 0 1

abbrev used_once : Edge → List Use
used_once e = if edge_eq an_edge e then (pos 12, pos 3) ∷ [] else []

abbrev one_edge : Table Edge EdgeData
one_edge = (an_edge, summary ((pos 12, pos 3) ∷ [])) ∷ []

one_edge-Summarises : Summarises one_edge used_once
unfolding get
one_edge-Summarises e = elim (Bool-cases (edge_eq an_edge e)) [ inl h ↦ rw h | inr h ↦ rw h ]

use_edge-used_example :
    (edges : Table Edge EdgeData) × (use_edge an_edge (pos 20) (ok (pos 4)) one_edge ≡ ok edges)
    × Summarises edges (used an_edge (pos 20) (pos 4) used_once)
unfolding is_i64 ◌-ℤ◌
use_edge-used_example =
    use_edge-used an_edge (pos 20) (pos 4) one_edge used_once one_edge-Summarises refl

-- A message is published, outside callbacks, and taken 7 ns later.
abbrev seen : ℤ → Processed.Ros2.Event → World × Processed.FullEvent
seen t e = (world, record { context = context; time = t; event = Processed.ros2 e })

abbrev communication : List (World × Processed.FullEvent)
communication =
    seen (pos 20) (Processed.Ros2.rmw_publish (record { message = 0 }))
    ∷ seen (pos 27) (Processed.Ros2.rmw_take (record { message = 0; taken = true }))
    ∷ []

abbrev after_communication : DependencyGraph
after_communication = record new {
  edges = (Edge.publisher_subscriber_communication 0 0, summary ((pos 27, pos 7) ∷ [])) ∷ [];
  publisher_nodes = (0, record { publication_delay = []; last_publication = some (pos 20) }) ∷ [];
  subscriber_nodes = (0, record { take_delay = []; last_take = some (pos 27) }) ∷ [];
}

process_all-uses_example :
    edge_data (Edge.publisher_subscriber_communication 0 0) after_communication.edges
    ≡ summary ((pos 27, pos 7) ∷ [])
unfolding process_all DependencyGraph.process_event process_publication process_publication_in
    DependencyGraph.process_rmw_take DependencyGraph.process_communication use_edge extend activate
    next_delay get insert into_option get_publication_message get_publication_time is_i64 ◌-ℤ◌
process_all-uses_example =
    process_all-uses alive communication after_communication refl
      (Edge.publisher_subscriber_communication 0 0)

-- The callback of a timer publishes on the topic of the subscriber.
abbrev timer_publishes : CallbackDependency
timer_publishes = record {
  timer_driven_callbacks = 1 ∷ [];
  message_driven_callbacks = 0 ∷ [];
  publication_in_callback = record PublicationInCallback.new { dependency = (0, 1) ∷ [] };
  graph = none;
}

abbrev timer_to_subscriber : Graph
timer_to_subscriber = record { nodes = 1 ∷ 0 ∷ []; edges = (0, 1) ∷ []; sources = 0 ∷ [] }

construct_callback_graph-JoinsByTopic_example :
    JoinsByTopic alive world (1 ∷ 0 ∷ []) ((0, 1) ∷ []) (0, 1)
unfolding construct_callback_graph add_timer_nodes add_message_nodes add_node all_edges
    topic_of_callback topic_of_publisher edges_to_topic edges_to get insert push update into_option
    get_arc
construct_callback_graph-JoinsByTopic_example =
    construct_callback_graph-JoinsByTopic alive world timer_publishes
      (record timer_publishes { graph = some timer_to_subscriber }) timer_to_subscriber refl refl
      (0, 1) (Memᴰ.head refl)

-- The callback of a service publishes there.
abbrev service_publishes : CallbackDependency
service_publishes = record timer_publishes {
  publication_in_callback = record PublicationInCallback.new { dependency = (0, 2) ∷ [] };
}

construct_callback_graph-service_example :
    construct_callback_graph alive world service_publishes
    ≢ ok (record service_publishes {
      graph = some (record { nodes = 1 ∷ 0 ∷ []; edges = []; sources = 0 ∷ [] });
    })
unfolding topic_of_callback topic_of_publisher into_option get_arc contains
construct_callback_graph-service_example =
    construct_callback_graph-service alive world 2 "pose" service_publishes
      (record service_publishes {
        graph = some (record { nodes = 1 ∷ 0 ∷ []; edges = []; sources = 0 ∷ [] });
      })
      0 0 refl refl (Memᴰ.head refl) refl (Memᴰ.head refl) refl

abbrev after_service : DependencyGraph
after_service = record new {
  edges =
      (
        Edge.service_callback_invocation 0 2,
        record { activation_delay = []; latencies = i64_max ∷ []; last_activation = some (pos 40) },
      )
      ∷ [];
}

abbrev empty_dot : DisplayAsDot
empty_dot = record {
  numbering = no_numbers;
  ros_nodes = [];
  ros_node_to_id = [];
  ros_nodes_min_max_latency_stats = [];
  edges = [];
  pub_sub_latency_range = none;
}

process_edge_to_callback-new_example :
    Dot.new thousandths all_alive alive world after_service ≢ ok empty_dot
unfolding process_edge_to_callback use_edge extend activate wake_up_latency get insert into_option
    get_arc
process_edge_to_callback-new_example =
    process_edge_to_callback-new thousandths all_alive alive world world 2 0 (pos 40) new
      after_service empty_dot refl

validate_range-update_all_example :
    (validate_range (update_all (pos 4 ∷ pos 9 ∷ []) no_range)
      ≡ some (update_all (pos 4 ∷ pos 9 ∷ []) no_range))
    × ((y : ℤ) → Memᴰ y (pos 4 ∷ pos 9 ∷ []) → Holds (update_all (pos 4 ∷ pos 9 ∷ []) no_range) y)
    × (((update_all (pos 4 ∷ pos 9 ∷ []) no_range).0 ≡ i64_max)
        ⊎ Memᴰ (update_all (pos 4 ∷ pos 9 ∷ []) no_range).0 (pos 4 ∷ pos 9 ∷ []))
    × (((update_all (pos 4 ∷ pos 9 ∷ []) no_range).1 ≡ i64_min)
        ⊎ Memᴰ (update_all (pos 4 ∷ pos 9 ∷ []) no_range).1 (pos 4 ∷ pos 9 ∷ []))
validate_range-update_all_example = validate_range-update_all (pos 4) (pos 9 ∷ [])

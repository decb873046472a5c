-- ===== src/Program/Tests.antt =====
-- A run over a trace with one event of a node, among other messages.
use ros2trace_analyzer.Common.{pos, List, [], ◌∷◌, none, some, refl, Ref, true}
use ros2trace_analyzer.Events.Raw
use ros2trace_analyzer.Processor.State.{init}
use ros2trace_analyzer.Processor.Dispatch
use ros2trace_analyzer.Processor.Dispatch.{process_raw_event}
use ros2trace_analyzer.Processor.Hosts
use ros2trace_analyzer.Processor.Tests.Data.{steps, after, context, all_alive, node_event}
use ros2trace_analyzer.Analysis.EventAnalysis.{dependency_graph}
use ros2trace_analyzer.Analysis.DependencyGraph
use ros2trace_analyzer.Analysis.DependencyGraph.Graph
use ros2trace_analyzer.Analysis.DependencyGraph.Graph.{DependencyGraph}
use ros2trace_analyzer.Program.{
  Message, boundary, skipped, event, ProcessedEventsIter, new, next, after_event, run, finished,
}
use ros2trace_analyzer.Program.Counters.{HasEnded, countable, run-ends}

abbrev pub first_event : Raw.FullEvent
first_event = record {
  context = context;
  time = pos 1;
  event = Raw.ros2 (Raw.Ros2.rcl_node_init node_event);
}

abbrev pub messages : List Message
messages = boundary ∷ event (some (all_alive, first_event)) ∷ skipped ∷ event none ∷ boundary ∷ []

abbrev final : ProcessedEventsIter DependencyGraph
final = record (new (record Graph.new { ros_nodes = 0 ∷ [] })) {
  processor = after (process_raw_event all_alive first_event init);
  ros_processed_events = 1;
  other_events = 1;
  other_messages = 1;
}

run-ends_example :
    HasEnded (dependency_graph (λ (r : Ref). true)) (countable messages) (some (finished final))
unfolding steps Dispatch.process_raw_event Dispatch.process_inner Dispatch.process_raw_ros2_event
    Dispatch.dispatch_ros2 Dispatch.into_full_event Hosts.host_to_host_id Hosts.entry_or_insert
    Hosts.lookup run next after_event DependencyGraph.process_event DependencyGraph.finalize
run-ends_example =
    run-ends (dependency_graph (λ (r : Ref). true)) messages Graph.new (some (finished final)) refl

-- ===== src/Program/Outputs/Tests.antt =====
-- A run over a trace with one event of a node, with the dependency graph and the publications in callbacks asked for.
use ros2trace_analyzer.Common.{ℕ, ok, Ref, true, [], ◌∷◌, none, some, refl}
use ros2trace_analyzer.Processor.State.{init}
use ros2trace_analyzer.Processor.Dispatch
use ros2trace_analyzer.Processor.Dispatch.{process_raw_event}
use ros2trace_analyzer.Processor.Hosts
use ros2trace_analyzer.Processor.Tests.Data.{steps, after, all_alive}
use ros2trace_analyzer.Analysis.CallbackDependency
use ros2trace_analyzer.Analysis.PublicationInCallback
use ros2trace_analyzer.Analysis.DependencyGraph
use ros2trace_analyzer.Analysis.DependencyGraph.Graph
use ros2trace_analyzer.Analysis.Tests.Utilizations.{ratios, env}
use ros2trace_analyzer.Args
use ros2trace_analyzer.Args.Tests.{arguments}
use ros2trace_analyzer.Program.{ProcessedEventsIter, new, next, after_event, run}
use ros2trace_analyzer.Program.Tests.{first_event, messages}
use ros2trace_analyzer.Program.Analyses
use ros2trace_analyzer.Program.Analyses.{Analyses, enabled_analyses, initialize_all}
use ros2trace_analyzer.Program.Outputs.{Writers, write, write_outputs}
use ros2trace_analyzer.Program.Outputs.Written.{Writes, task_of}
use ros2trace_analyzer.Program.Outputs.Requested.{requested, run-write_outputs}

abbrev parts : Analyses
parts = record {
  message_latency_analysis = none;
  callback_analysis = none;
  callback_dependency_analysis = some (record CallbackDependency.new {
    graph = some (record { nodes = []; edges = []; sources = [] });
  });
  message_take_to_callback_analysis = none;
  dependency_graph = some (record Graph.new { ros_nodes = 0 ∷ [] });
  spin_duration_analysis = none;
}

abbrev final : ProcessedEventsIter Analyses
final = record (new parts) {
  processor = after (process_raw_event all_alive first_event init);
  ros_processed_events = 1;
  other_events = 1;
  other_messages = 1;
}

-- Writers that write nothing.
abbrev silent : Writers ℕ (Unit {0})
silent = record {
  message_latency = λ s. ok tt;
  callback_duration = λ s. ok tt;
  callback_publications = λ s. ok tt;
  callback_dependency = λ g. ok tt;
  message_take_to_callback_latency = λ s. ok tt;
  utilization = λ q lines. ok tt;
  real_utilization = λ lines. ok tt;
  spin_duration = λ s. ok tt;
  dependency_graph = λ color thickness min_multiplier g dot. ok tt;
}

run-write_outputs_example :
    Writes
      (write silent ratios env final.processor)
      (task_of arguments final.analyses)
      (write_outputs silent ratios env final.processor arguments final.analyses)
      (requested arguments)
unfolding steps Dispatch.process_raw_event Dispatch.process_inner Dispatch.process_raw_ros2_event
    Dispatch.dispatch_ros2 Dispatch.into_full_event Hosts.host_to_host_id Hosts.entry_or_insert
    Hosts.lookup run next after_event DependencyGraph.process_event DependencyGraph.finalize
    enabled_analyses initialize_all Analyses.process_event_all Analyses.finalize_all Analyses.each
    CallbackDependency.process_event CallbackDependency.add_registered
    CallbackDependency.construct_callback_graph PublicationInCallback.process_event
    Args.dependency_graph_enabled Args.message_latency_enabled Args.callback_duration_enabled
    Args.callback_publications_enabled Args.callback_dependency_enabled
    Args.message_take_to_callback_latency_enabled Args.utilization_enabled
    Args.real_utilization_enabled Args.spin_duration_enabled
run-write_outputs_example =
    run-write_outputs silent ratios env arguments (λ (r : Ref). true) (λ (r : Ref). true) 6 messages
      final refl

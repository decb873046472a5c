-- ===== src/Program/Analyses.antt =====
-- `Analyses` of src/main.rs: which analyses run, and all of them as one. The loop hands every event to each of them in
-- the order of `all_as_mut`.
pub mod Parts
use ros2trace_analyzer.Common.{Ref, Bool, ◌||◌, Option, none, some, Result, ok, [], if◌then◌else◌}
use ros2trace_analyzer.Events.Processed
use ros2trace_analyzer.Processor.State.{World}
use ros2trace_analyzer.Analysis.Base.{◌>>=◌}
use ros2trace_analyzer.Analysis.EventAnalysis
use ros2trace_analyzer.Analysis.EventAnalysis.{EventAnalysis}
use ros2trace_analyzer.Analysis.SpinDuration
use ros2trace_analyzer.Analysis.SpinDuration.{SpinDuration}
use ros2trace_analyzer.Analysis.TakeToCallbackLatency
use ros2trace_analyzer.Analysis.TakeToCallbackLatency.{TakeToCallbackLatency}
use ros2trace_analyzer.Analysis.CallbackDuration
use ros2trace_analyzer.Analysis.CallbackDuration.{CallbackDuration}
use ros2trace_analyzer.Analysis.MessageLatency
use ros2trace_analyzer.Analysis.MessageLatency.{MessageLatency}
use ros2trace_analyzer.Analysis.CallbackDependency
use ros2trace_analyzer.Analysis.CallbackDependency.{CallbackDependency}
use ros2trace_analyzer.Analysis.DependencyGraph.Graph
use ros2trace_analyzer.Analysis.DependencyGraph.Graph.{DependencyGraph}
use ros2trace_analyzer.Args
use ros2trace_analyzer.Args.{Args}

pub record Analyses : Type 0 where
  pub message_latency_analysis : Option MessageLatency
  pub callback_analysis : Option CallbackDuration
  pub callback_dependency_analysis : Option CallbackDependency
  pub message_take_to_callback_analysis : Option TakeToCallbackLatency
  pub dependency_graph : Option DependencyGraph
  pub spin_duration_analysis : Option SpinDuration

-- An analysis, where its output is asked for.
abbrev pub when : {A : Type 0} → Bool → A → Option A
when enabled a = if enabled then some a else none

-- The analyses that `run` makes.
unfoldable pub enabled_analyses : {F : Type 0} → Args F → Analyses
enabled_analyses args = record {
  message_latency_analysis = when (Args.message_latency_enabled args) MessageLatency.new;
  callback_analysis =
      when
        (Args.callback_duration_enabled args
          || (Args.utilization_enabled args || Args.real_utilization_enabled args))
        CallbackDuration.new;
  callback_dependency_analysis =
      when (Args.callback_dependency_enabled args || Args.callback_publications_enabled args)
        CallbackDependency.new;
  message_take_to_callback_analysis =
      when (Args.message_take_to_callback_latency_enabled args) (record { latencies = [] });
  dependency_graph = when (Args.dependency_graph_enabled args) Graph.new;
  spin_duration_analysis =
      when (Args.spin_duration_enabled args) (record { processing_durations = [] });
}

-- A step of an analysis that may not be there.
unfoldable pub each : {S : Type 0} → (S → Result S) → Option S → Result (Option S)
each step none = ok none
each step (some s) = do s' ← step s; ok (some s')

abbrev pub each_initialized : {S : Type 0} → (S → S) → Option S → Option S
each_initialized initialize none = none
each_initialized initialize (some s) = some (initialize s)

-- A step of each analysis, in the order of `all_as_mut`.
unfoldable pub in_order :
    (MessageLatency → Result MessageLatency)
    → (CallbackDuration → Result CallbackDuration)
    → (CallbackDependency → Result CallbackDependency)
    → (TakeToCallbackLatency → Result TakeToCallbackLatency)
    → (DependencyGraph → Result DependencyGraph)
    → (SpinDuration → Result SpinDuration)
    → Analyses
    → Result Analyses
unfolding each
in_order latency duration dependency take graph spin a = do
  message_latency_analysis ← each latency a.message_latency_analysis
  callback_analysis ← each duration a.callback_analysis
  callback_dependency_analysis ← each dependency a.callback_dependency_analysis
  message_take_to_callback_analysis ← each take a.message_take_to_callback_analysis
  dependency_graph ← each graph a.dependency_graph
  spin_duration_analysis ← each spin a.spin_duration_analysis
  ok (record {
    message_latency_analysis = message_latency_analysis;
    callback_analysis = callback_analysis;
    callback_dependency_analysis = callback_dependency_analysis;
    message_take_to_callback_analysis = message_take_to_callback_analysis;
    dependency_graph = dependency_graph;
    spin_duration_analysis = spin_duration_analysis;
  })

-- Which subscribers and nodes a weak reference can still be upgraded to.
module _ (subscriber_alive node_alive : Ref → Bool) where
  -- `add_add_analysis`.
  unfoldable pub initialize_all : Analyses → Analyses
  initialize_all a = record {
    message_latency_analysis =
        each_initialized EventAnalysis.message_latency.initialize a.message_latency_analysis;
    callback_analysis =
        each_initialized EventAnalysis.callback_duration.initialize a.callback_analysis;
    callback_dependency_analysis =
        each_initialized (EventAnalysis.callback_dependency subscriber_alive).initialize
          a.callback_dependency_analysis;
    message_take_to_callback_analysis =
        each_initialized EventAnalysis.take_to_callback_latency.initialize
          a.message_take_to_callback_analysis;
    dependency_graph =
        each_initialized (EventAnalysis.dependency_graph node_alive).initialize a.dependency_graph;
    spin_duration_analysis =
        each_initialized EventAnalysis.spin_duration.initialize a.spin_duration_analysis;
  }

  unfoldable pub process_event_all : World → Processed.FullEvent → Analyses → Result Analyses
  unfolding in_order
  process_event_all w e =
      in_order (EventAnalysis.message_latency.process_event w e)
        (EventAnalysis.callback_duration.process_event w e)
        ((EventAnalysis.callback_dependency subscriber_alive).process_event w e)
        (EventAnalysis.take_to_callback_latency.process_event w e)
        ((EventAnalysis.dependency_graph node_alive).process_event w e)
        (EventAnalysis.spin_duration.process_event w e)

  unfoldable pub finalize_all : World → Analyses → Result Analyses
  unfolding in_order
  finalize_all w =
      in_order (EventAnalysis.message_latency.finalize w)
        (EventAnalysis.callback_duration.finalize w)
        ((EventAnalysis.callback_dependency subscriber_alive).finalize w)
        (EventAnalysis.take_to_callback_latency.finalize w)
        ((EventAnalysis.dependency_graph node_alive).finalize w)
        (EventAnalysis.spin_duration.finalize w)

  abbrev pub all_analyses : EventAnalysis Analyses
  all_analyses = record {
    initialize = initialize_all;
    process_event = process_event_all;
    finalize = finalize_all;
  }

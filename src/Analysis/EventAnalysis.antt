-- ===== src/Analysis/EventAnalysis.antt =====
-- The trait `EventAnalysis` of src/analysis/mod.rs, its implementations, and the run of one over the events of a
-- trace (src/main.rs). An analysis reads the objects of the processor as they are when the event comes.
use ros2trace_analyzer.Common.{Ref, Bool, List, [], ◌∷◌, Result, ok}
use ros2trace_analyzer.Events.Processed
use ros2trace_analyzer.Processor.State.{World}
use ros2trace_analyzer.Analysis.Base.{◌>>=◌}
use ros2trace_analyzer.Analysis.Returns.{Returns, returns, >>=-Returns}
use ros2trace_analyzer.Analysis.SpinDuration
use ros2trace_analyzer.Analysis.TakeToCallbackLatency
use ros2trace_analyzer.Analysis.CallbackDuration
use ros2trace_analyzer.Analysis.MessageLatency
use ros2trace_analyzer.Analysis.PublicationInCallback
use ros2trace_analyzer.Analysis.CallbackDependency
use ros2trace_analyzer.Analysis.DependencyGraph

pub record EventAnalysis (S : Type 0) : Type 0 where
  pub initialize : S → S
  pub process_event : World → Processed.FullEvent → S → Result S
  pub finalize : World → S → Result S

module _ {S : Type 0} (analysis : EventAnalysis S) where
  unfoldable pub process_all : List (World × Processed.FullEvent) → S → Result S
  process_all [] s = ok s
  process_all ((w, e) ∷ events) s = do s' ← analysis.process_event w e s; process_all events s'

  -- What every event keeps, the run keeps.
  pub process_all-Returns :
      {P : S → Type 0}
      → ((w : World) (e : Processed.FullEvent) (s : S)
          → P s
          → Returns P (analysis.process_event w e s))
      → (events : List (World × Processed.FullEvent)) (s : S) → P s
      → Returns P (process_all events s)
  unfolding process_all
  process_all-Returns keeps [] s p = returns p
  process_all-Returns keeps ((w, e) ∷ events) s p =
      >>=-Returns (keeps w e s p) (λ s' p'. process_all-Returns keeps events s' p')

abbrev pub spin_duration : EventAnalysis SpinDuration.SpinDuration
spin_duration = record {
  initialize = SpinDuration.initialize;
  process_event = SpinDuration.process_event;
  finalize = λ w s. ok s;
}

abbrev pub take_to_callback_latency : EventAnalysis TakeToCallbackLatency.TakeToCallbackLatency
take_to_callback_latency = record {
  initialize = TakeToCallbackLatency.initialize;
  process_event = TakeToCallbackLatency.process_event;
  finalize = λ w s. ok s;
}

abbrev pub callback_duration : EventAnalysis CallbackDuration.CallbackDuration
callback_duration = record {
  initialize = λ s. CallbackDuration.new;
  process_event = CallbackDuration.process_event;
  finalize = CallbackDuration.finalize;
}

abbrev pub message_latency : EventAnalysis MessageLatency.MessageLatency
message_latency = record {
  initialize = λ s. MessageLatency.new;
  process_event = MessageLatency.process_event;
  finalize = MessageLatency.finalize;
}

abbrev pub publication_in_callback : EventAnalysis PublicationInCallback.PublicationInCallback
publication_in_callback = record {
  initialize = λ s. PublicationInCallback.new;
  process_event = PublicationInCallback.process_event;
  finalize = λ w s. ok s;
}

abbrev pub dependency_graph : (Ref → Bool) → EventAnalysis DependencyGraph.Graph.DependencyGraph
dependency_graph node_alive = record {
  initialize = λ s. DependencyGraph.Graph.new;
  process_event = DependencyGraph.process_event node_alive;
  finalize = λ w g. ok (DependencyGraph.finalize g);
}

abbrev pub callback_dependency : (Ref → Bool) → EventAnalysis CallbackDependency.CallbackDependency
callback_dependency subscriber_alive = record {
  initialize = λ s. CallbackDependency.new;
  process_event = CallbackDependency.process_event;
  finalize = CallbackDependency.construct_callback_graph subscriber_alive;
}

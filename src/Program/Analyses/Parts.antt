-- ===== src/Program/Analyses/Parts.antt =====
-- The analyses that were started are there to the end, and no other ones; the callback graph is there after `finalize`.
use ros2trace_analyzer.Common.{Ref, Bool, Option, none, some, Result, ok, ◌≡◌, refl, ◌∙◌}
use ros2trace_analyzer.Events.Processed
use ros2trace_analyzer.Processor.State.{World}
use ros2trace_analyzer.Analysis.Returns.{
  Returns, returns, >>=-Returns, then-Returns, weaken-Returns,
}
use ros2trace_analyzer.Analysis.EventAnalysis
use ros2trace_analyzer.Analysis.SpinDuration.{SpinDuration}
use ros2trace_analyzer.Analysis.TakeToCallbackLatency.{TakeToCallbackLatency}
use ros2trace_analyzer.Analysis.CallbackDuration.{CallbackDuration}
use ros2trace_analyzer.Analysis.MessageLatency.{MessageLatency}
use ros2trace_analyzer.Analysis.CallbackDependency.{
  CallbackDependency, Graph, construct_callback_graph, add_timer_nodes, no_nodes, add_message_nodes,
  all_edges,
}
use ros2trace_analyzer.Analysis.DependencyGraph.Graph.{DependencyGraph}
use ros2trace_analyzer.Args.{is_some}
use ros2trace_analyzer.Program.Analyses.{Analyses, each, in_order, process_event_all, finalize_all}

pub record SameParts (a b : Analyses) : Type 0 where
  pub message_latency : is_some b.message_latency_analysis ≡ is_some a.message_latency_analysis
  pub callback : is_some b.callback_analysis ≡ is_some a.callback_analysis
  pub callback_dependency :
      is_some b.callback_dependency_analysis ≡ is_some a.callback_dependency_analysis
  pub message_take :
      is_some b.message_take_to_callback_analysis ≡ is_some a.message_take_to_callback_analysis
  pub dependency_graph : is_some b.dependency_graph ≡ is_some a.dependency_graph
  pub spin_duration : is_some b.spin_duration_analysis ≡ is_some a.spin_duration_analysis

pub trans-SameParts : {a b c : Analyses} → SameParts a b → SameParts b c → SameParts a c
trans-SameParts p q = record {
  message_latency = q.message_latency ∙ p.message_latency;
  callback = q.callback ∙ p.callback;
  callback_dependency = q.callback_dependency ∙ p.callback_dependency;
  message_take = q.message_take ∙ p.message_take;
  dependency_graph = q.dependency_graph ∙ p.dependency_graph;
  spin_duration = q.spin_duration ∙ p.spin_duration;
}

-- What holds of an analysis, where it is there.
abbrev pub AllOf : {S : Type 0} → (S → Type 0) → Option S → Type 0
AllOf P none = Unit {0}
AllOf P (some s) = P s

each-Returns :
    {S : Type 0} (P : S → Type 0) (step : S → Result S) (o : Option S)
    → ((s : S) → Returns P (step s))
    → Returns (λ o'. (is_some o' ≡ is_some o) × AllOf P o') (each step o)
unfolding each
each-Returns P step none k = returns (refl, tt)
each-Returns P step (some s) k = >>=-Returns (k s) (λ s' p. returns (refl, p))

each-same :
    {S : Type 0} (step : S → Result S) (o : Option S)
    → Returns (λ o'. is_some o' ≡ is_some o) (each step o)
unfolding each
each-same step none = returns refl
each-same step (some s) = then-Returns (step s) (λ s'. returns refl)

in_order-SameParts :
    (P : CallbackDependency → Type 0) (latency : MessageLatency → Result MessageLatency)
    (duration : CallbackDuration → Result CallbackDuration)
    (dependency : CallbackDependency → Result CallbackDependency)
    (take : TakeToCallbackLatency → Result TakeToCallbackLatency)
    (graph : DependencyGraph → Result DependencyGraph) (spin : SpinDuration → Result SpinDuration)
    (a : Analyses)
    → ((s : CallbackDependency) → Returns P (dependency s))
    → Returns
        (λ b. SameParts a b × AllOf P b.callback_dependency_analysis)
        (in_order latency duration dependency take graph spin a)
unfolding in_order
in_order-SameParts P latency duration dependency take graph spin a k =
    >>=-Returns (each-same latency _) (λ b1 e1. >>=-Returns (each-same duration _) (λ b2 e2.
      >>=-Returns (each-Returns P dependency _ k) (λ b3 e3. >>=-Returns (each-same take _) (λ b4 e4.
        >>=-Returns (each-same graph _) (λ b5 e5. >>=-Returns (each-same spin _) (λ b6 e6. returns (
          record {
            message_latency = e1;
            callback = e2;
            callback_dependency = e3.0;
            message_take = e4;
            dependency_graph = e5;
            spin_duration = e6;
          },
          e3.1,
        )))))))

abbrev pub HasGraph : CallbackDependency → Type 0
HasGraph s = (g : Graph) × (s.graph ≡ some g)

construct_callback_graph-HasGraph :
    (alive : Ref → Bool) (w : World) (s : CallbackDependency)
    → Returns HasGraph (construct_callback_graph alive w s)
unfolding construct_callback_graph
construct_callback_graph-HasGraph alive w s =
    then-Returns
      (add_message_nodes alive w s.message_driven_callbacks
        (add_timer_nodes s.timer_driven_callbacks no_nodes))
      (λ n.
        then-Returns (all_edges alive w n s.publication_in_callback.dependency)
          (λ edges. returns (_, refl)))

module _ (subscriber_alive node_alive : Ref → Bool) where
  any_step : {S : Type 0} (r : Result S) → Returns (λ s. Unit {0}) r
  any_step (ok s) = returns tt
  any_step (Result.err e) = Returns.fails
  any_step (Result.fault x) = Returns.faults

  pub process_event_all-SameParts :
      (w : World) (e : Processed.FullEvent) (a : Analyses)
      → Returns (SameParts a) (process_event_all subscriber_alive node_alive w e a)
  unfolding process_event_all
  process_event_all-SameParts w e a =
      weaken-Returns (in_order-SameParts (λ s. Unit {0}) _ _ _ _ _ _ a (λ s. any_step _))
        (λ b p. p.0)

  pub finalize_all-SameParts :
      (w : World) (a : Analyses)
      → Returns
          (λ b. SameParts a b × AllOf HasGraph b.callback_dependency_analysis)
          (finalize_all subscriber_alive node_alive w a)
  unfolding finalize_all
  finalize_all-SameParts w a =
      in_order-SameParts HasGraph _ _ _ (EventAnalysis.take_to_callback_latency.finalize w)
        ((EventAnalysis.dependency_graph node_alive).finalize w)
        (EventAnalysis.spin_duration.finalize w) a
        (construct_callback_graph-HasGraph subscriber_alive w)

-- ===== src/Program/Outputs/Requested.antt =====
-- After the loop of src/main.rs has finished the trace, every output that is asked for is written, in order: no analysis
-- is missing.
use ros2trace_analyzer.Common.{
  ℕ, Ref, Bool, true, false, ◌||◌, Option, none, some, List, ◌++◌, ok, ◌≡◌, refl, ◌∙◌, arith,
}
use ros2trace_analyzer.Analysis.Returns.{of_Returns, weaken-Returns}
use ros2trace_analyzer.Analysis.CallbackDependency.{CallbackDependency}
use ros2trace_analyzer.Analysis.Utilization.{Ratios}
use ros2trace_analyzer.Display.{Environment}
use ros2trace_analyzer.Processor.State.{World}
use ros2trace_analyzer.Args
use ros2trace_analyzer.Args.{Args, FilePath, is_some, map_path}
use ros2trace_analyzer.Program.{Message, new, run, finished, ProcessedEventsIter}
use ros2trace_analyzer.Program.Analyses.{
  Analyses, when, enabled_analyses, initialize_all, all_analyses, each_initialized,
}
use ros2trace_analyzer.Program.Analyses.Parts.{
  SameParts, trans-SameParts, AllOf, HasGraph, process_event_all-SameParts, finalize_all-SameParts,
}
use ros2trace_analyzer.Program.Finished.{run-Finished}
use ros2trace_analyzer.Program.Outputs.{Output, Writers, write, graph_output, write_outputs}
use ros2trace_analyzer.Program.Outputs
use ros2trace_analyzer.Program.Outputs.Written.{
  OutputType, map_some, bind_some, task_of, Writes, asked, then_write-Writes, write_output-Writes,
  plain-Writes,
}

-- All outputs that are asked for, in the order in which they are written.
unfoldable pub requested : {F : Type 0} → Args F → List (FilePath × OutputType)
requested args =
    asked (Args.message_latency_path args) OutputType.message_latency
    ++ (asked (Args.callback_duration_path args) OutputType.callback_duration
        ++ (asked (Args.callback_publications_path args) OutputType.callback_publications
            ++ (asked (Args.callback_dependency_path args) OutputType.callback_dependency
                ++ (asked (Args.message_take_to_callback_latency_path args)
                      OutputType.message_take_to_callback_latency
                    ++ (asked (Args.utilization_path args) OutputType.utilization
                        ++ (asked (Args.real_utilization_path args) OutputType.real_utilization
                            ++ (asked (Args.spin_duration_path args) OutputType.spin_duration
                                ++ asked (Args.dependency_graph_path args)
                                    OutputType.dependency_graph)))))))

path_some :
    (f : FilePath → FilePath) (o : Option FilePath)
    → is_some (map_path f o) ≡ true
    → is_some o ≡ true
path_some f none h = h
path_some f (some path) h = refl

is_some-when : {A : Type 0} (b : Bool) (a : A) → is_some (when b a) ≡ b
is_some-when true a = refl
is_some-when false a = refl

-- What is asked for by an option or by others.
first_or : (b c : Bool) → b ≡ true → b || c ≡ true
first_or b c h = ground arith

second_or : (b c : Bool) → c ≡ true → b || c ≡ true
second_or b c h = ground arith

-- The callback graph is there once it was constructed.
graph_there :
    {F : Type 0} (o : Option CallbackDependency)
    → is_some o ≡ true
    → AllOf HasGraph o
    → (s : CallbackDependency) × (t : Output F) × (o ≡ some s)
      × (graph_output s ≡ ok t)
      × (bind_some (λ (c : CallbackDependency). map_some Outputs.callback_dependency c.graph) o
          ≡ some t)
unfolding graph_output
graph_there none there graph = absurd (cc there)
graph_there (some s) there (g, e) = (s, Outputs.callback_dependency g, refl, rw e refl, rw e refl)

-- The analyses of the outputs that are asked for are those that `run` makes, and the graph is there.
module _ {F A : Type 0} (writers : Writers F A) (ratios : Ratios F) (env : Environment) (w : World)
    (args : Args F) (a : Analyses) (same : SameParts (enabled_analyses args) a)
    (graph : AllOf HasGraph a.callback_dependency_analysis) where
  write_outputs-Writes :
      Writes
        (write writers ratios env w)
        (task_of args a)
        (write_outputs writers ratios env w args a)
        (requested args)
  unfolding write_outputs requested task_of enabled_analyses Args.dependency_graph_path
      Args.message_latency_path Args.callback_duration_path Args.callback_publications_path
      Args.callback_dependency_path Args.message_take_to_callback_latency_path Args.utilization_path
      Args.real_utilization_path Args.spin_duration_path Args.dependency_graph_enabled
      Args.message_latency_enabled Args.callback_duration_enabled Args.callback_publications_enabled
      Args.callback_dependency_enabled Args.message_take_to_callback_latency_enabled
      Args.utilization_enabled Args.real_utilization_enabled Args.spin_duration_enabled
  write_outputs-Writes =
      then_write-Writes _ _ _ _ _ _
        (plain-Writes _ _ _ _ _ a.message_latency_analysis refl
          (λ h. same.message_latency ∙ is_some-when _ _ ∙ path_some _ args.message_latency h))
        (then_write-Writes _ _ _ _ _ _
          (plain-Writes _ _ _ _ _ a.callback_analysis refl (λ h.
            same.callback ∙ is_some-when _ _ ∙ first_or _ _ (path_some _ args.callback_duration h)))
          (then_write-Writes _ _ _ _ _ _
            (plain-Writes _ _ _ _ _ a.callback_dependency_analysis refl (λ h.
              same.callback_dependency
              ∙ is_some-when _ _
              ∙ second_or _ _ (path_some _ args.callback_publications h)))
            (then_write-Writes _ _ _ _ _ _
              (write_output-Writes _ _ OutputType.callback_dependency _ _
                a.callback_dependency_analysis
                (λ h.
                  graph_there a.callback_dependency_analysis
                    (same.callback_dependency
                      ∙ is_some-when _ _
                      ∙ first_or _ _ (path_some _ args.callback_dependency h))
                    graph))
              (then_write-Writes _ _ _ _ _ _
                (plain-Writes _ _ _ _ _ a.message_take_to_callback_analysis refl (λ h.
                  same.message_take
                  ∙ is_some-when _ _
                  ∙ path_some _ args.message_take_to_callback_latency h))
                (then_write-Writes _ _ _ _ _ _
                  (plain-Writes _ _ _ _ _ a.callback_analysis refl (λ h.
                    same.callback
                    ∙ is_some-when _ _
                    ∙ second_or _ _ (first_or _ _ (path_some _ args.utilization h))))
                  (then_write-Writes _ _ _ _ _ _
                    (plain-Writes _ _ _ _ _ a.callback_analysis refl (λ h.
                      same.callback
                      ∙ is_some-when _ _
                      ∙ second_or _ _ (second_or _ _ (path_some _ args.real_utilization h))))
                    (then_write-Writes _ _ _ _ _ _
                      (plain-Writes _ _ _ _ _ a.spin_duration_analysis refl (λ h.
                        same.spin_duration ∙ is_some-when _ _ ∙ path_some _ args.spin_duration h))
                      (plain-Writes _ _ _ _ _ a.dependency_graph refl (λ h.
                        same.dependency_graph
                        ∙ is_some-when _ _
                        ∙ path_some _ args.dependency_graph h)))))))))

each_initialized-same :
    {S : Type 0} (f : S → S) (o : Option S) → is_some (each_initialized f o) ≡ is_some o
each_initialized-same f none = refl
each_initialized-same f (some s) = refl

initialize_all-SameParts :
    (subscriber_alive node_alive : Ref → Bool) (a : Analyses)
    → SameParts a (initialize_all subscriber_alive node_alive a)
unfolding initialize_all
initialize_all-SameParts subscriber_alive node_alive a = record {
  message_latency = each_initialized-same _ a.message_latency_analysis;
  callback = each_initialized-same _ a.callback_analysis;
  callback_dependency = each_initialized-same _ a.callback_dependency_analysis;
  message_take = each_initialized-same _ a.message_take_to_callback_analysis;
  dependency_graph = each_initialized-same _ a.dependency_graph;
  spin_duration = each_initialized-same _ a.spin_duration_analysis;
}

-- When the loop has finished a trace, with the analyses that the arguments ask for, no analysis that is unwrapped is
-- missing: for each output that is asked for, in the order of the program, there is a task for its path, with the
-- state that its analysis has at the end. What is written is what the writers make of these tasks, one after another,
-- and where one of them fails or panics, so does the whole.
pub run-write_outputs :
    {F A : Type 0} (writers : Writers F A) (ratios : Ratios F) (env : Environment) (args : Args F)
    (subscriber_alive node_alive : Ref → Bool) (fuel : ℕ) (messages : List Message)
    (it : ProcessedEventsIter Analyses)
    → run
        (all_analyses subscriber_alive node_alive)
        fuel
        messages
        (new (initialize_all subscriber_alive node_alive (enabled_analyses args)))
      ≡ ok (some (finished it))
    → Writes
        (write writers ratios env it.processor)
        (task_of args it.analyses)
        (write_outputs writers ratios env it.processor args it.analyses)
        (requested args)
run-write_outputs writers ratios env args subscriber_alive node_alive fuel messages it e =
    let start = initialize_all subscriber_alive node_alive (enabled_analyses args) in
    let end =
      of_Returns
        (run-Finished (all_analyses subscriber_alive node_alive) (SameParts (enabled_analyses args))
          (λ b. SameParts (enabled_analyses args) b × AllOf HasGraph b.callback_dependency_analysis)
          (λ w x s p.
            weaken-Returns (process_event_all-SameParts subscriber_alive node_alive w x s)
              (λ b q. trans-SameParts p q))
          (λ w s p.
            weaken-Returns (finalize_all-SameParts subscriber_alive node_alive w s)
              (λ b q. (trans-SameParts p q.0, q.1)))
          fuel messages (new start)
          (initialize_all-SameParts subscriber_alive node_alive (enabled_analyses args)))
        e in
    write_outputs-Writes writers ratios env it.processor args it.analyses end.0 end.1

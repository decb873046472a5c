-- ===== src/Program/Outputs.antt =====
-- What `run` of src/main.rs writes, after the loop: for each output that is asked for, its path, and what its writer
-- makes of its analysis. The analyses are unwrapped: one that was not run panics. The entries that are exported, the lines
-- of the statistics and the graph for the output are made as in the program, and can panic; their JSON or text, and the
-- files, are a parameter (`Writers`).
pub mod Written
pub mod Requested
pub mod Tests
use ros2trace_analyzer.Common.{ℤ, String, Bool, Option, none, some, List, [], ◌∷◌, ◌++◌, Result, ok}
use ros2trace_analyzer.Statistics.{Quantile}
use ros2trace_analyzer.Analysis.Base.{◌>>=◌, expect}
use ros2trace_analyzer.Analysis.SpinDuration.{SpinDuration}
use ros2trace_analyzer.Analysis.TakeToCallbackLatency.{TakeToCallbackLatency}
use ros2trace_analyzer.Analysis.CallbackDuration.{CallbackDuration}
use ros2trace_analyzer.Analysis.MessageLatency.{MessageLatency}
use ros2trace_analyzer.Analysis.PublicationInCallback.{PublicationInCallback}
use ros2trace_analyzer.Analysis.CallbackDependency.{CallbackDependency, Graph}
use ros2trace_analyzer.Analysis.DependencyGraph.Graph.{DependencyGraph}
use ros2trace_analyzer.Args
use ros2trace_analyzer.Args.{Args, FilePath}
use ros2trace_analyzer.Analysis.Exports.{
  CallbackRecord, MessageLatencyExport, spin_entries, latency_entries, publication_lines,
  get_records, calculate_stats, export_all,
}
use ros2trace_analyzer.Analysis.DependencyGraph.Dot
use ros2trace_analyzer.Analysis.DependencyGraph.Dot.{DisplayAsDot}
use ros2trace_analyzer.Analysis.Utilization.{Ratios, reduce_quantile, reduce_real}
use ros2trace_analyzer.Analysis.Utilization.Report.{ThreadLines, write_stats}
use ros2trace_analyzer.Display.{Environment}
use ros2trace_analyzer.Processor.State.{World}
use ros2trace_analyzer.Program.Analyses.{Analyses}

-- What is handed to a writer.
pub data Output (F : Type 0) : Type 0 where
  message_latency : MessageLatency → Output F
  callback_duration : CallbackDuration → Output F
  callback_publications : PublicationInCallback → Output F
  callback_dependency : Graph → Output F
  message_take_to_callback_latency : TakeToCallbackLatency → Output F
  utilization : Quantile F → CallbackDuration → Output F
  real_utilization : CallbackDuration → Output F
  spin_duration : SpinDuration → Output F
  -- With the color, the thickness and the multiplier.
  dependency_graph : Bool → Bool → F → DependencyGraph → Output F

-- What writes the entries as JSON, and the lines and the graphs as text, to a file; each returns or fails.
pub record Writers (F A : Type 0) : Type 0 where
  pub message_latency : List MessageLatencyExport → Result A
  pub callback_duration : List CallbackRecord → Result A
  pub callback_publications : List (String × String) → Result A
  pub callback_dependency : Graph → Result A
  pub message_take_to_callback_latency : List (String × List ℤ) → Result A
  pub utilization : Quantile F → List (ThreadLines F) → Result A
  pub real_utilization : List (ThreadLines F) → Result A
  pub spin_duration : List (String × List ℤ) → Result A
  pub dependency_graph : Bool → Bool → F → DependencyGraph → DisplayAsDot → Result A

-- The files that are written, in their order.
abbrev pub Files : Type 0 → Type 0
Files A = List (FilePath × A)

-- `get_graph().unwrap()`.
unfoldable pub graph_output : {F : Type 0} → CallbackDependency → Result (Output F)
graph_output a = do g ← expect a.graph; ok (callback_dependency g)

-- One list of files behind another.
infixr 6 ◌then_write◌
abbrev pub ◌then_write◌ : {A : Type 0} → Result (Files A) → Result (Files A) → Result (Files A)
first then_write second = do xs ← first; ys ← second; ok (xs ++ ys)

-- `if let Some(path) = ..`: what is made of the analysis, unwrapped, is written.
module _ {F A : Type 0} (write : Output F → Result A) where
  unfoldable pub write_output :
      {S : Type 0} → Option FilePath → Option S → (S → Result (Output F)) → Result (Files A)
  write_output none analysis output = ok []
  write_output (some path) analysis output = do
    s ← expect analysis
    o ← output s
    written ← write o
    ok ((path, written) ∷ [])

module _ {F A : Type 0} (writers : Writers F A) (ratios : Ratios F) (env : Environment)
    (w : World) where
  unfoldable pub write : Output F → Result A
  write (message_latency s) = do
    stats ← calculate_stats env w s.latencies
    entries ← export_all env w stats
    writers.message_latency entries
  write (callback_duration s) = do
    records ← get_records env w s.execution_data
    writers.callback_duration records
  write (callback_publications s) = do
    lines ← publication_lines env w s.dependency
    writers.callback_publications lines
  write (callback_dependency g) = writers.callback_dependency g
  write (message_take_to_callback_latency s) = do
    entries ← latency_entries env w s.latencies
    writers.message_take_to_callback_latency entries
  write (utilization q s) = do
    lines ← write_stats ratios env w s (reduce_quantile ratios q)
    writers.utilization q lines
  write (real_utilization s) = do
    lines ← write_stats ratios env w s (reduce_real ratios)
    writers.real_utilization lines
  write (spin_duration s) = do
    entries ← spin_entries env w s.processing_durations
    writers.spin_duration entries
  write (dependency_graph color thickness min_multiplier g) = do
    dot ← Dot.new ratios.floats env.alive env.node_alive w g
    writers.dependency_graph color thickness min_multiplier g dot

  unfoldable pub write_outputs : Args F → Analyses → Result (Files A)
  unfolding write write_output graph_output
  write_outputs args a =
      write_output write (Args.message_latency_path args) a.message_latency_analysis
        (λ s. ok (message_latency s))
      then_write write_output write (Args.callback_duration_path args) a.callback_analysis
          (λ s. ok (callback_duration s))
      then_write write_output write (Args.callback_publications_path args)
          a.callback_dependency_analysis (λ s. ok (callback_publications s.publication_in_callback))
      then_write write_output write (Args.callback_dependency_path args)
          a.callback_dependency_analysis graph_output
      then_write write_output write (Args.message_take_to_callback_latency_path args)
          a.message_take_to_callback_analysis (λ s. ok (message_take_to_callback_latency s))
      then_write write_output write (Args.utilization_path args) a.callback_analysis
          (λ s. ok (utilization args.utilization_quantile s))
      then_write write_output write (Args.real_utilization_path args) a.callback_analysis
          (λ s. ok (real_utilization s))
      then_write write_output write (Args.spin_duration_path args) a.spin_duration_analysis
          (λ s. ok (spin_duration s))
      then_write write_output write (Args.dependency_graph_path args) a.dependency_graph
          (λ s. ok (dependency_graph args.color args.thickness args.min_multiplier s))

-- ===== src/Program/Outputs/Written.antt =====
-- What is to be written for each output that `run` of src/main.rs is asked for, and the outcome of a list of such tasks.
use mathlib.Core.List.{map-append}
use ros2trace_analyzer.Common.{
  true, Option, none, some, List, [], ◌∷◌, ◌++◌, map, Result, ok, ◌≡◌, refl, arith,
}
use ros2trace_analyzer.Analysis.Base.{◌>>=◌}
use ros2trace_analyzer.Args.{Args, FilePath, is_some}
use ros2trace_analyzer.Program.Analyses.{Analyses}
use ros2trace_analyzer.Program.Outputs.{Output, Files, write_output, ◌then_write◌}
use ros2trace_analyzer.Program.Outputs

pub data OutputType : Type 0 where
  message_latency callback_duration callback_publications callback_dependency
        message_take_to_callback_latency utilization real_utilization spin_duration
        dependency_graph :
      OutputType

abbrev pub map_some : {A B : Type 0} → (A → B) → Option A → Option B
map_some f none = none
map_some f (some a) = some (f a)

abbrev pub bind_some : {A B : Type 0} → (A → Option B) → Option A → Option B
bind_some f none = none
bind_some f (some a) = f a

-- What is handed to the writer of an output: none where the analysis, or its graph, is missing.
unfoldable pub task_of : {F : Type 0} → Args F → Analyses → OutputType → Option (Output F)
task_of args a OutputType.message_latency =
    map_some Outputs.message_latency a.message_latency_analysis
task_of args a OutputType.callback_duration = map_some Outputs.callback_duration a.callback_analysis
task_of args a OutputType.callback_publications =
    map_some (λ s. Outputs.callback_publications s.publication_in_callback)
      a.callback_dependency_analysis
task_of args a OutputType.callback_dependency =
    bind_some (λ s. map_some Outputs.callback_dependency s.graph) a.callback_dependency_analysis
task_of args a OutputType.message_take_to_callback_latency =
    map_some Outputs.message_take_to_callback_latency a.message_take_to_callback_analysis
task_of args a OutputType.utilization =
    map_some (Outputs.utilization args.utilization_quantile) a.callback_analysis
task_of args a OutputType.real_utilization = map_some Outputs.real_utilization a.callback_analysis
task_of args a OutputType.spin_duration = map_some Outputs.spin_duration a.spin_duration_analysis
task_of args a OutputType.dependency_graph =
    map_some (Outputs.dependency_graph args.color args.thickness args.min_multiplier)
      a.dependency_graph

abbrev pub asked : Option FilePath → OutputType → List (FilePath × OutputType)
asked none t = []
asked (some path) t = (path, t) ∷ []

module _ {F A : Type 0} (write : Output F → Result A) where
  -- Each task in turn, to its path, up to the first that fails.
  unfoldable pub write_all : List (FilePath × Output F) → Result (Files A)
  write_all [] = ok []
  write_all ((path, o) ∷ rest) = do
    written ← write o
    later ← write_all rest
    ok ((path, written) ∷ later)

  write_all-append :
      (xs ys : List (FilePath × Output F))
      → write_all (xs ++ ys) ≡ write_all xs then_write write_all ys
  unfolding write_all
  write_all-append [] ys = ground arith
  write_all-append ((path, o) ∷ xs) ys = rw (write_all-append xs ys) (ground arith)

  -- A path with the task of an output, and one with a task that is there.
  abbrev pub with_task :
      (OutputType → Option (Output F)) → FilePath × OutputType → FilePath × Option (Output F)
  with_task task (path, t) = (path, task t)

  abbrev pub there_is : FilePath × Output F → FilePath × Option (Output F)
  there_is (path, o) = (path, some o)

  module _ (task : OutputType → Option (Output F)) where
    -- There is a task for each of these outputs, and the outcome is that of the tasks, one after another.
    abbrev pub Writes : Result (Files A) → List (FilePath × OutputType) → Type 0
    Writes r types =
        (tasks : List (FilePath × Output F)) × (map (with_task task) types ≡ map there_is tasks)
        × (r ≡ write_all tasks)

    pub then_write-Writes :
        (first second : Result (Files A)) (xs ys : List (FilePath × OutputType))
        → Writes first xs
        → Writes second ys
        → Writes (first then_write second) (xs ++ ys)
    then_write-Writes first second xs ys (ts, e, r) (us, e', r') = (
      ts ++ us,
      rw (map-append (with_task task) xs ys, map-append there_is ts us, e, e') refl,
      rw (r, r', write_all-append ts us) refl,
    )

    -- An output whose task is there if it is asked for.
    pub write_output-Writes :
        {S : Type 0} (t : OutputType) (output : S → Result (Output F)) (path : Option FilePath)
        (analysis : Option S)
        → (is_some path ≡ true
            → (s : S) × (o : Output F) × (analysis ≡ some s)
              × (output s ≡ ok o)
              × (task t ≡ some o))
        → Writes (write_output write path analysis output) (asked path t)
    unfolding write_output write_all
    write_output-Writes t output none analysis there = ([], refl, refl)
    write_output-Writes t output (some path) analysis there =
        let (s, o, e, made, is_task) = there refl in
        ((path, o) ∷ [], rw is_task refl, rw (e, made) refl)

    -- An output that is made of any state of its analysis.
    pub plain-Writes :
        {S : Type 0} (t : OutputType) (output : S → Output F) (path : Option FilePath)
        (analysis : Option S)
        → task t ≡ map_some output analysis
        → (is_some path ≡ true → is_some analysis ≡ true)
        → Writes (write_output write path analysis (λ s. ok (output s))) (asked path t)
    plain-Writes t output path none is_task there =
        write_output-Writes t (λ s. ok (output s)) path none (λ h. absurd (cc (there h)))
    plain-Writes t output path (some s) is_task there =
        write_output-Writes t (λ s'. ok (output s')) path (some s)
          (λ h. (s, output s, refl, refl, is_task))

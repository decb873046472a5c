-- ===== src/Args.antt =====
-- src/argsv2.rs: the arguments of the program, the files that are asked for, and the search for the traces. How the
-- command line is read (`clap`), how directories are walked (`walkdir`), and how sure babeltrace is that a directory
-- holds a trace are not in src: the arguments are given, and the other two are parameters.
pub mod Traces
pub mod Tests
use Prim.Native.String.{◌++◌, slice, len}
use ros2trace_analyzer.Common.{
  ℕ, ◌-◌, String, str_eq, Bool, true, false, not, ◌&&◌, Option, none, some, List, if◌then◌else◌,
}
use ros2trace_analyzer.Statistics.{Quantile}

-- A path of a Unix system.
abbrev pub FilePath : Type 0
FilePath = String

-- `F` are the numbers of floating point.
pub record Args (F : Type 0) : Type 0 where
  pub all : Bool
  pub dependency_graph : Option FilePath
  pub message_latency : Option FilePath
  pub callback_duration : Option FilePath
  pub callback_publications : Option FilePath
  pub callback_dependency : Option FilePath
  pub message_take_to_callback_latency : Option FilePath
  pub utilization : Option FilePath
  pub real_utilization : Option FilePath
  pub spin_duration : Option FilePath
  pub out_dir : Option FilePath
  pub quantiles : List (Quantile F)
  pub utilization_quantile : Quantile F
  pub thickness : Bool
  pub color : Bool
  pub min_multiplier : F
  pub trace_paths : List FilePath
  pub exact_trace_path : Bool

-- `Path::is_absolute`.
unfoldable pub is_absolute : FilePath → Bool
is_absolute path = str_eq (slice path 0 1) "/"

-- Whether `Path::join` puts a separator behind the path.
unfoldable pub needs_separator : FilePath → Bool
needs_separator path =
    not (str_eq path "") && not (str_eq (slice path (len path - 1) (len path)) "/")

-- `Path::join`: an absolute path replaces the one in front.
unfoldable pub join : FilePath → FilePath → FilePath
unfolding is_absolute needs_separator
join base path =
    if is_absolute path
    then path
    else if needs_separator base
    then base ++ ("/" ++ path)
    else base ++ path

unfoldable pub concatenate_with_directory : Option FilePath → FilePath → FilePath
unfolding join
concatenate_with_directory none path = path
concatenate_with_directory (some out_dir) path = join out_dir path

abbrev pub is_some : {A : Type 0} → Option A → Bool
is_some none = false
is_some (some a) = true

abbrev pub map_path : (FilePath → FilePath) → Option FilePath → Option FilePath
map_path f none = none
map_path f (some path) = some (f path)

module _ {F : Type 0} (args : Args F) where
  unfoldable pub concatenate_with_out_path : FilePath → FilePath
  unfolding is_absolute concatenate_with_directory
  concatenate_with_out_path path =
      if is_absolute path then path else concatenate_with_directory args.out_dir path

  unfoldable pub dependency_graph_enabled : Bool
  dependency_graph_enabled = is_some args.dependency_graph

  unfoldable pub message_latency_enabled : Bool
  message_latency_enabled = is_some args.message_latency

  unfoldable pub callback_duration_enabled : Bool
  callback_duration_enabled = is_some args.callback_duration

  unfoldable pub callback_publications_enabled : Bool
  callback_publications_enabled = is_some args.callback_publications

  unfoldable pub callback_dependency_enabled : Bool
  callback_dependency_enabled = is_some args.callback_dependency

  unfoldable pub message_take_to_callback_latency_enabled : Bool
  message_take_to_callback_latency_enabled = is_some args.message_take_to_callback_latency

  unfoldable pub utilization_enabled : Bool
  utilization_enabled = is_some args.utilization

  unfoldable pub real_utilization_enabled : Bool
  real_utilization_enabled = is_some args.real_utilization

  unfoldable pub spin_duration_enabled : Bool
  spin_duration_enabled = is_some args.spin_duration

  unfoldable pub dependency_graph_path : Option FilePath
  dependency_graph_path = map_path concatenate_with_out_path args.dependency_graph

  unfoldable pub message_latency_path : Option FilePath
  message_latency_path = map_path concatenate_with_out_path args.message_latency

  unfoldable pub callback_duration_path : Option FilePath
  callback_duration_path = map_path concatenate_with_out_path args.callback_duration

  unfoldable pub callback_publications_path : Option FilePath
  callback_publications_path = map_path concatenate_with_out_path args.callback_publications

  unfoldable pub callback_dependency_path : Option FilePath
  callback_dependency_path = map_path concatenate_with_out_path args.callback_dependency

  unfoldable pub message_take_to_callback_latency_path : Option FilePath
  message_take_to_callback_latency_path =
      map_path concatenate_with_out_path args.message_take_to_callback_latency

  unfoldable pub utilization_path : Option FilePath
  utilization_path = map_path concatenate_with_out_path args.utilization

  unfoldable pub real_utilization_path : Option FilePath
  real_utilization_path = map_path concatenate_with_out_path args.real_utilization

  unfoldable pub spin_duration_path : Option FilePath
  spin_duration_path = map_path concatenate_with_out_path args.spin_duration

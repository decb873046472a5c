-- ===== src/Args/Tests.antt =====
-- A directory with a trace and one without, named exactly; paths of outputs.
use ros2trace_analyzer.Common.{
  ℕ, str_eq, true, false, none, some, List, [], ◌∷◌, ok, ◌≡◌, refl, inr, leb, if◌then◌else◌, Result,
}
use ros2trace_analyzer.Args.{Args, FilePath, concatenate_with_out_path}
use ros2trace_analyzer.Args.Traces.{prepare_trace_paths}

abbrev pub arguments : Args ℕ
arguments = record {
  all = false;
  dependency_graph = some "graph.dot";
  message_latency = none;
  callback_duration = none;
  callback_publications = some "/var/publications.txt";
  callback_dependency = none;
  message_take_to_callback_latency = none;
  utilization = none;
  real_utilization = none;
  spin_duration = none;
  out_dir = some "/tmp";
  quantiles = [];
  utilization_quantile = record { value = 900 };
  thickness = true;
  color = false;
  min_multiplier = 5000;
  trace_paths = "/data/a" ∷ "/data/b" ∷ [];
  exact_trace_path = true;
}

-- In hundredths.
abbrev weight : FilePath → Result ℕ
weight path = ok (if str_eq path "/data/a" then 75 else 0)

abbrev walk : FilePath → Result (List FilePath)
walk path = ok (path ∷ [])

relative_path : concatenate_with_out_path arguments "graph.dot" ≡ "/tmp/graph.dot"
unfolding concatenate_with_out_path
relative_path = refl

absolute_path : concatenate_with_out_path arguments "/graph.dot" ≡ "/graph.dot"
unfolding concatenate_with_out_path
absolute_path = refl

one_trace :
    prepare_trace_paths weight walk (λ (w : ℕ). leb 75 w) arguments ≡ ok (inr ("/data/a" ∷ []))
unfolding prepare_trace_paths
one_trace = refl

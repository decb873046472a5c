-- ===== src/Analysis/Tests/Utilizations.antt =====
-- The utilization of two threads by the callback of a subscription, in thousandths.
use Prim.Native.Char.{Char}
use ros2trace_analyzer.Common.{
  ℕ, ◌+◌, ◌*◌, ◌/◌, leb, ℤ, pos, pos_part, Ref, true, none, List, [], ◌∷◌, length, ok, ◌≡◌, refl,
  arith, is_i64, ◌+ℤ◌, ◌-ℤ◌, div_ℤ,
}
use ros2trace_analyzer.Utils.Known.{into_option}
use ros2trace_analyzer.Statistics
use ros2trace_analyzer.Statistics.{Quantile}
use ros2trace_analyzer.Statistics.Tests.{thousandths, thousandths-IsIeee, ninth_tenth}
use ros2trace_analyzer.Processor.Tests.Data.{all_alive}
use ros2trace_analyzer.Analysis.Table.{
  Table, get, insert, update, push, contains, add, ref_key, pair_key,
}
use ros2trace_analyzer.Analysis.CallbackDuration
use ros2trace_analyzer.Analysis.CallbackDuration.{CallbackDuration, ExecutionData}
use ros2trace_analyzer.Analysis.Utilization
use ros2trace_analyzer.Analysis.Utilization.{
  Ratios, Thread, PerCallback, times_and_counts, reduce_quantile, real_ratios,
}
use ros2trace_analyzer.Analysis.Utilization.Counts.{
  stats_of, on_thread, time_of, times_and_counts-stats,
}
use ros2trace_analyzer.Analysis.Utilization.Durations.{times_and_counts-reduce_quantile}
use ros2trace_analyzer.Analysis.Utilization.Report.{write_utilization, sort_reversed}
use ros2trace_analyzer.Analysis.Utilization.Lines.{calculate_total_utilization-written}
use ros2trace_analyzer.Analysis.Tests.Data.{world}
use ros2trace_analyzer.Display.{Environment}
use ros2trace_analyzer.Display.Shows.{Shows}

abbrev pub ratios : Ratios ℕ
ratios = record {
  floats = thousandths;
  of_ℤ = λ a. pos_part a * 1000;
  div = λ a b. a * 1000 / b;
  plus = λ a b. a + b;
  hundred = 100000;
  total_leb = leb;
}

abbrev pub env : Environment
env = record {
  time = λ t. "now";
  printable = λ (c : Char). true;
  node_alive = λ (r : Ref). true;
  alive = all_alive;
}

abbrev executed : ℤ → ℤ → ℕ → ExecutionData
executed start duration thread = record {
  start_time = start;
  duration = duration;
  tid = thread;
  cpuid = 1;
}

abbrev executions : List ExecutionData
executions =
    executed (pos 0) (pos 4) 8 ∷ executed (pos 10) (pos 6) 8 ∷ executed (pos 20) (pos 2) 9 ∷ []

abbrev durations : CallbackDuration
durations = record CallbackDuration.new { execution_data = (0, executions) ∷ [] }

abbrev stats : Table ℕ (ℕ × ℤ)
stats = (8, (2, pos 10)) ∷ (9, (1, pos 2)) ∷ []

abbrev threads : Table Thread (List Ref)
threads = (("robot", 8), 0 ∷ []) ∷ (("robot", 9), 0 ∷ []) ∷ []

abbrev per_callback : PerCallback ℕ
per_callback = (0, (8, 333) ∷ (9, 66) ∷ []) ∷ []

abbrev per_thread : Table Thread ℕ
per_thread = (("robot", 8), 333) ∷ (("robot", 9), 66) ∷ []

-- To unfold this is to unfold what the tables above compute with.
unfoldable counting : Unit {0}
unfolding times_and_counts Utilization.add_times is_i64 ◌+ℤ◌ get insert update push contains add
    Utilization.get_thread_callback_map Utilization.thread_callbacks Utilization.add_executions
    Utilization.calculate_utilization_per_callback_internal Utilization.per_callback
    Utilization.callback_utilization Utilization.timer_period Utilization.or_mean_time
    Utilization.mean_of Utilization.reduce_known Utilization.reduce_real real_ratios into_option
    CallbackDuration.get_inter_arrival_time CallbackDuration.get_inter_arrival_time_inner
    CallbackDuration.some_times CallbackDuration.times_between ◌-ℤ◌ div_ℤ Statistics.mean
    Statistics.sum Statistics.expect_i64 Utilization.calculate_total_utilization
    Utilization.total_utilization Utilization.add_threads
counting = tt

times_and_counts-stats_example :
    stats_of 8 stats ≡ (length (on_thread 8 executions), time_of (on_thread 8 executions))
unfolding counting
times_and_counts-stats_example = times_and_counts-stats executions stats refl 8

times_and_counts-reduce_quantile_example :
    (utilization : Table ℕ ℕ) × (reduce_quantile ratios ninth_tenth stats executions 10000
      ≡ ok utilization)
unfolding counting
times_and_counts-reduce_quantile_example =
    times_and_counts-reduce_quantile ratios thousandths-IsIeee ninth_tenth (refl, refl) executions
      stats 10000 refl (omega arith)

calculate_total_utilization-written_example :
    Shows
      (write_utilization ratios env world per_callback threads (sort_reversed ratios per_thread))
unfolding counting
calculate_total_utilization-written_example =
    calculate_total_utilization-written ratios env world durations none threads per_callback
      per_thread refl refl refl

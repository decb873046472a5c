-- ===== src/Analysis/Utilization.antt =====
-- src/analysis/utilization.rs: how much of the time of a thread its callbacks take. The arithmetic of `f64` is a
-- parameter; what is written is the data of the lines, with the summaries of the callbacks.
pub mod Keys
pub mod Counts
pub mod Durations
pub mod Report
pub mod Lines
pub mod Threads
use ros2trace_analyzer.Common.{
  ℕ, ◌+◌, ℤ, pos, ◌+ℤ◌, is_i64, String, Ref, Bool, not, Option, none, some, List, [], ◌∷◌, length,
  Result, ok, fault, panic, if◌then◌else◌,
}
use ros2trace_analyzer.Utils.Known.{Known, known, unknown, into_option}
use ros2trace_analyzer.Utils.ArcWeak.{get_arc}
use ros2trace_analyzer.Model.Callback.{Callback, CallbackCaller}
use ros2trace_analyzer.Processor.State.{World}
use ros2trace_analyzer.Statistics.Float.{Floats}
use ros2trace_analyzer.Statistics.{i64_order, Quantile, from_unsorted, quantile, mean}
use ros2trace_analyzer.Analysis.Base.{◌>>=◌, expect, lock}
use ros2trace_analyzer.Analysis.Table.{
  Table, get, insert, update, push, add, or_default, ref_key, pair_key,
}
use ros2trace_analyzer.Analysis.CallbackDependency.{topic_key}
use ros2trace_analyzer.Analysis.CallbackDuration.{
  CallbackDuration, ExecutionData, get_inter_arrival_time,
}
use ros2trace_analyzer.Display.{Environment, LockType}
use ros2trace_analyzer.Display.Summary.{callback_summary}

-- What is used of `f64` besides the quantiles.
pub record Ratios (F : Type 0) : Type 0 where
  pub floats : Floats F
  pub of_ℤ : ℤ → F
  pub div : F → F → F
  pub plus : F → F → F
  pub hundred : F
  -- `total_cmp`, as the test that the first is not greater.
  pub total_leb : F → F → Bool

-- A thread of a host.
abbrev pub Thread : Type 0
Thread = String × ℕ

-- For each thread of a callback, its utilization.
abbrev pub PerCallback : Type 0 → Type 0
PerCallback F = Table Ref (Table ℕ F)

module _ (w : World) where
  unfoldable pub add_executions :
      Ref → List ExecutionData → Table Thread (List Ref) → Result (Table Thread (List Ref))
  add_executions callback [] threads = ok threads
  add_executions callback (d ∷ rest) threads = do
    c ← lock w.callbacks callback
    add_executions callback rest (update (c.hostname, d.tid) [] (add callback) threads)

  unfoldable pub thread_callbacks :
      Table Ref (List ExecutionData) → Table Thread (List Ref) → Result (Table Thread (List Ref))
  unfolding add_executions
  thread_callbacks [] threads = ok threads
  thread_callbacks ((callback, executions) ∷ rest) threads = do
    threads' ← add_executions callback executions threads
    thread_callbacks rest threads'

  unfoldable pub get_thread_callback_map : CallbackDuration → Result (Table Thread (List Ref))
  unfolding thread_callbacks
  get_thread_callback_map s = thread_callbacks s.execution_data []

  -- The period of a timer; `none` for other callers.
  unfoldable pub timer_period : (Ref → Bool) → Known CallbackCaller → Result (Option ℤ)
  unfolding into_option
  timer_period alive (known (CallbackCaller.timer timer)) = do
    r ← expect (get_arc alive timer)
    t ← lock w.timers r
    ok (into_option t.period)
  timer_period alive (known (CallbackCaller.subscription _)) = ok none
  timer_period alive (known (CallbackCaller.service _)) = ok none
  timer_period alive unknown = ok none

unfoldable pub mean_of : Option (List ℤ) → Result (Option ℤ)
mean_of none = ok none
mean_of (some times) = mean times

-- The period, or else the mean time between the starts.
unfoldable pub or_mean_time : Ref → CallbackDuration → Option ℤ → Result (Option ℤ)
unfolding mean_of
or_mean_time callback s (some period) = ok (some period)
or_mean_time callback s none = do times ← get_inter_arrival_time callback s; mean_of times

-- Addition of `i64`s, with the overflow check of a build with debug assertions.
unfoldable pub add_times : ℤ → ℤ → Result ℤ
add_times a b = let sum = a +ℤ b in if is_i64 sum then ok sum else fault panic

-- How often each thread ran the callback, and for how long.
unfoldable pub times_and_counts : List ExecutionData → Table ℕ (ℕ × ℤ) → Result (Table ℕ (ℕ × ℤ))
unfolding add_times
times_and_counts [] stats = ok stats
times_and_counts (d ∷ rest) stats = do
  let known_stats : ℕ × ℤ = or_default (0, pos 0) (get d.tid stats)
  time ← add_times known_stats.1 d.duration
  times_and_counts rest (insert d.tid (known_stats.0 + 1, time) stats)

unfoldable pub durations_per_thread : List ExecutionData → Table ℕ (List ℤ) → Table ℕ (List ℤ)
durations_per_thread [] t = t
durations_per_thread (d ∷ rest) t = durations_per_thread rest (push d.tid d.duration t)

-- A reduction function: from the times and counts of the threads, the executions, and the time between two.
abbrev pub Reduction : Type 0 → Type 0
Reduction F = Table ℕ (ℕ × ℤ) → List ExecutionData → F → Result (Table ℕ F)

module _ {F : Type 0} (ratios : Ratios F) where
  unfoldable pub reduce_known :
      Reduction F → List ExecutionData → Option ℤ → Result (Option (Table ℕ F))
  unfolding times_and_counts
  reduce_known reduce executions none = ok none
  reduce_known reduce executions (some time) = do
    stats ← times_and_counts executions []
    utilization ← reduce stats executions (ratios.of_ℤ time)
    ok (some utilization)

  abbrev pub insert_known : Ref → Option (Table ℕ F) → PerCallback F → PerCallback F
  insert_known callback none t = t
  insert_known callback (some utilization) t = insert callback utilization t

  module _ (w : World) (alive : Ref → Bool) (s : CallbackDuration) (reduce : Reduction F) where
    -- `none` where the time between two executions is not known.
    unfoldable pub callback_utilization : Ref → List ExecutionData → Result (Option (Table ℕ F))
    unfolding timer_period or_mean_time reduce_known
    callback_utilization callback executions = do
      c ← lock w.callbacks callback
      period ← timer_period w alive c.caller
      time ← or_mean_time callback s period
      reduce_known reduce executions time

    unfoldable pub per_callback :
        Table Ref (List ExecutionData) → PerCallback F → Result (PerCallback F)
    unfolding callback_utilization
    per_callback [] t = ok t
    per_callback ((callback, executions) ∷ rest) t = do
      utilization ← callback_utilization callback executions
      per_callback rest (insert_known callback utilization t)

    unfoldable pub calculate_utilization_per_callback_internal : Result (PerCallback F)
    unfolding per_callback
    calculate_utilization_per_callback_internal = per_callback s.execution_data []

  -- The time of each thread, over the time between two executions times their number.
  unfoldable pub real_ratios : F → Table ℕ (ℕ × ℤ) → Table ℕ F
  real_ratios whole [] = []
  real_ratios whole ((thread, (count, time)) ∷ rest) =
      (thread, ratios.div (ratios.of_ℤ time) whole) ∷ real_ratios whole rest

  unfoldable pub reduce_real : Reduction F
  unfolding real_ratios
  reduce_real stats executions time =
      ok (real_ratios (ratios.floats.mul time (ratios.floats.of_ℕ (length executions))) stats)

  unfoldable pub quantile_durations : Quantile F → Table ℕ (List ℤ) → Result (Table ℕ ℤ)
  quantile_durations q [] = ok []
  quantile_durations q ((thread, durations) ∷ rest) = do
    duration ← expect (quantile ratios.floats q (from_unsorted durations))
    later ← quantile_durations q rest
    ok ((thread, duration) ∷ later)

  -- `quantile_duration[&thread]` panics where the thread is missing.
  unfoldable pub quantile_ratios : F → Table ℕ ℤ → Table ℕ (ℕ × ℤ) → Result (Table ℕ F)
  quantile_ratios whole durations [] = ok []
  quantile_ratios whole durations ((thread, (count, time)) ∷ rest) = do
    duration ← expect (get thread durations)
    later ← quantile_ratios whole durations rest
    ok (
        (
          thread,
          ratios.div (ratios.floats.mul (ratios.of_ℤ duration) (ratios.floats.of_ℕ count)) whole,
        )
        ∷ later)

  unfoldable pub reduce_quantile : Quantile F → Reduction F
  unfolding durations_per_thread quantile_durations quantile_ratios
  reduce_quantile q stats executions time = do
    durations ← quantile_durations q (durations_per_thread executions [])
    quantile_ratios (ratios.floats.mul time (ratios.floats.of_ℕ (length executions))) durations
        stats

  module _ (w : World) where
    unfoldable pub add_threads : String → Table ℕ F → Table Thread F → Table Thread F
    add_threads hostname [] t = t
    add_threads hostname ((thread, utilization) ∷ rest) t =
        add_threads hostname rest
          (update (hostname, thread) ratios.floats.zero (λ u. ratios.plus u utilization) t)

    unfoldable pub total_utilization : PerCallback F → Table Thread F → Result (Table Thread F)
    unfolding add_threads
    total_utilization [] t = ok t
    total_utilization ((callback, per_thread) ∷ rest) t = do
      c ← lock w.callbacks callback
      total_utilization rest (add_threads c.hostname per_thread t)

    unfoldable pub calculate_total_utilization : PerCallback F → Result (Table Thread F)
    unfolding total_utilization
    calculate_total_utilization per_callback_utilization =
        total_utilization per_callback_utilization []

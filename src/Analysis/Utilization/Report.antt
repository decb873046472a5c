-- ===== src/Analysis/Utilization/Report.antt =====
-- `write_stats` of src/analysis/utilization.rs: the lines that are written, from the most utilized thread on.
use ros2trace_analyzer.Common.{ℕ, String, Ref, none, some, List, [], ◌∷◌, Result, ok, if◌then◌else◌}
use ros2trace_analyzer.Processor.State.{World}
use ros2trace_analyzer.Analysis.Base.{◌>>=◌, expect}
use ros2trace_analyzer.Analysis.Table.{Table, get, or_default, ref_key, pair_key}
use ros2trace_analyzer.Analysis.CallbackDependency.{topic_key}
use ros2trace_analyzer.Analysis.CallbackDuration.{CallbackDuration}
use ros2trace_analyzer.Analysis.Utilization.{
  Ratios, Thread, PerCallback, Reduction, get_thread_callback_map,
  calculate_utilization_per_callback_internal, calculate_total_utilization,
}
use ros2trace_analyzer.Display.{Environment, LockType, with_lock}
use ros2trace_analyzer.Display.Summary.{callback_summary}

-- A thread with its utilization in percent, and its callbacks with theirs and their summaries.
pub record ThreadLines (F : Type 0) : Type 0 where
  pub thread : Thread
  pub utilization : F
  pub callbacks : List (F × String)

module _ {F : Type 0} (ratios : Ratios F) where
  -- `sort_unstable_by` with the order reversed.
  unfoldable pub insert_reversed : {A : Type 0} → A × F → List (A × F) → List (A × F)
  insert_reversed x [] = x ∷ []
  insert_reversed x (y ∷ ys) =
      if ratios.total_leb y.1 x.1 then x ∷ y ∷ ys else y ∷ insert_reversed x ys

  unfoldable pub sort_reversed : {A : Type 0} → List (A × F) → List (A × F)
  unfolding insert_reversed
  sort_reversed [] = []
  sort_reversed (x ∷ xs) = insert_reversed x (sort_reversed xs)

  -- The callbacks of a thread whose utilization is known.
  unfoldable pub with_utilization : PerCallback F → ℕ → List Ref → List (Ref × F)
  with_utilization per_callback thread [] = []
  with_utilization per_callback thread (callback ∷ rest) =
      let later = with_utilization per_callback thread rest in
      elim (get callback per_callback) [
        | none ↦ later
        | some utilization ↦
            (callback, or_default ratios.floats.zero (get thread utilization)) ∷ later
      ]

  module _ (env : Environment) (w : World) where
    unfoldable pub callback_lines : List (Ref × F) → Result (List (F × String))
    callback_lines [] = ok []
    callback_lines ((callback, utilization) ∷ rest) = do
      summary ← with_lock LockType.callback w.callbacks callback (callback_summary env w) []
      later ← callback_lines rest
      ok ((ratios.floats.mul utilization ratios.hundred, summary) ∷ later)

    unfoldable pub write_utilization :
        PerCallback F → Table Thread (List Ref) → List (Thread × F) → Result (List (ThreadLines F))
    unfolding callback_lines with_utilization sort_reversed
    write_utilization per_callback threads [] = ok []
    write_utilization per_callback threads ((thread, utilization) ∷ rest) = do
      callbacks ← expect (get thread threads)
      lines ← callback_lines (sort_reversed (with_utilization per_callback thread.1 callbacks))
      later ← write_utilization per_callback threads rest
      ok (
          record {
            thread = thread;
            utilization = ratios.floats.mul utilization ratios.hundred;
            callbacks = lines;
          }
          ∷ later)

    -- `write_stats` with the quantile's reduction, and `write_stats_real` with the other one.
    unfoldable pub write_stats : CallbackDuration → Reduction F → Result (List (ThreadLines F))
    unfolding write_utilization
    write_stats s reduce = do
      threads ← get_thread_callback_map w s
      per_callback ← calculate_utilization_per_callback_internal ratios w env.alive.timer s reduce
      per_thread ← calculate_total_utilization ratios w per_callback
      write_utilization per_callback threads (sort_reversed per_thread)

-- ===== src/Analysis/Utilization/Lines.antt =====
-- The lines of src/analysis/utilization.rs are written: no thread is missing in the map of the threads, and the summaries
-- of the callbacks neither panic nor deadlock.
use ros2trace_analyzer.Common.{
  ℕ, true, Ref, Option, none, some, List, [], ◌∷◌, ok, ◌≡◌, refl, inl, inr, Bool-cases,
}
use ros2trace_analyzer.Statistics.{Quantile}
use ros2trace_analyzer.Processor.State.{World}
use ros2trace_analyzer.Model.Callback.{Callback}
use ros2trace_analyzer.Analysis.Base.{lock}
use ros2trace_analyzer.Analysis.Returns.{Returns, returns, bind-Returns, of_Returns}
use ros2trace_analyzer.Analysis.Table.{Table, update, ref_key, pair_key}
use ros2trace_analyzer.Analysis.CallbackDependency.{topic_key}
use ros2trace_analyzer.Analysis.CallbackDuration.{CallbackDuration}
use ros2trace_analyzer.Analysis.Utilization.{
  Ratios, Thread, PerCallback, Reduction, reduce_real, reduce_quantile, get_thread_callback_map,
  calculate_utilization_per_callback_internal, add_threads, total_utilization,
  calculate_total_utilization,
}
use ros2trace_analyzer.Analysis.Utilization.Keys.{
  has, has-some, AllKeys, insert-AllKeys, KeepsKeys, reduce_real-KeepsKeys,
  reduce_quantile-KeepsKeys,
}
use ros2trace_analyzer.Analysis.Utilization.Threads.{
  HasThread, AllCallbacks, thread_callbacks-Covers, per_callback-AllCallbacks, of_lock,
}
use ros2trace_analyzer.Analysis.Utilization.Report.{
  insert_reversed, sort_reversed, callback_lines, write_utilization,
}
use ros2trace_analyzer.Display.{Environment, LockType}
use ros2trace_analyzer.Display.Shows.{Shows, shows, bind-Shows, with_lock-Shows}
use ros2trace_analyzer.Display.Deadlock.Summary.{callback_summary-Shows}

module _ {F : Type 0} (ratios : Ratios F) where
  insert_reversed-AllKeys :
      {A : Type 0} (P : A → Type 0) (x : A × F) (xs : List (A × F))
      → P x.0
      → AllKeys P xs
      → AllKeys P (insert_reversed ratios x xs)
  unfolding insert_reversed
  insert_reversed-AllKeys P x [] p all = (p, tt)
  insert_reversed-AllKeys P x (y ∷ ys) p all = elim (Bool-cases (ratios.total_leb y.1 x.1)) [
    | inl le ↦ rw le (p, all)
    | inr gt ↦ rw gt (all.0, insert_reversed-AllKeys P x ys p all.1)
  ]

  sort_reversed-AllKeys :
      {A : Type 0} (P : A → Type 0) (xs : List (A × F))
      → AllKeys P xs
      → AllKeys P (sort_reversed ratios xs)
  unfolding sort_reversed
  sort_reversed-AllKeys P [] all = tt
  sort_reversed-AllKeys P (x ∷ xs) all =
      insert_reversed-AllKeys P x (sort_reversed ratios xs) all.0 (sort_reversed-AllKeys P xs all.1)

  module _ (w : World) (P : Thread → Type 0) where
    -- The threads of a callback, under the name of its host.
    abbrev OfHost : Ref → ℕ → Type 0
    OfHost callback tid = (c : Callback) → w.callbacks.cell callback ≡ some c → P (c.hostname, tid)

    add_threads-AllKeys :
        (callback : Ref) (c : Callback) (threads : Table ℕ F) (t : Table Thread F)
        → w.callbacks.cell callback ≡ some c
        → AllKeys (OfHost callback) threads
        → AllKeys P t
        → AllKeys P (add_threads ratios w c.hostname threads t)
    unfolding add_threads update
    add_threads-AllKeys callback c [] t e keys all = all
    add_threads-AllKeys callback c ((thread, utilization) ∷ rest) t e keys all =
        add_threads-AllKeys callback c rest _ e keys.1
          (insert-AllKeys P (c.hostname, thread) _ t all (keys.0 c e))

    total_utilization-AllKeys :
        (per_callback : PerCallback F) (t : Table Thread F)
        → AllCallbacks OfHost per_callback
        → AllKeys P t
        → Returns (AllKeys P) (total_utilization ratios w per_callback t)
    unfolding total_utilization
    total_utilization-AllKeys [] t callbacks all = returns all
    total_utilization-AllKeys ((callback, threads) ∷ rest) t callbacks all =
        bind-Returns (lock w.callbacks callback) (λ c e.
          total_utilization-AllKeys rest (add_threads ratios w c.hostname threads t) callbacks.1 (
            add_threads-AllKeys callback c threads t (of_lock w.callbacks callback e) callbacks.0
              all))

  module _ (env : Environment) (w : World) where
    callback_lines-Shows :
        (callbacks : List (Ref × F)) → Shows (callback_lines ratios env w callbacks)
    unfolding callback_lines
    callback_lines-Shows [] = shows
    callback_lines-Shows ((callback, utilization) ∷ rest) =
        bind-Shows
          (with_lock-Shows LockType.callback w.callbacks _ callback [] refl (λ c.
            callback_summary-Shows env w _
              (record {
                subscriber_free = refl;
                service_free = refl;
                timer_free = refl;
                node_free = refl;
              })
              c))
          (λ summary. bind-Shows (callback_lines-Shows rest) (λ later. shows))

    module _ (threads : Table Thread (List Ref)) (per_callback : PerCallback F) where
      write_utilization-Shows :
          (per_thread : List (Thread × F))
          → AllKeys (λ k. has k threads ≡ true) per_thread
          → Shows (write_utilization ratios env w per_callback threads per_thread)
      unfolding write_utilization
      write_utilization-Shows [] all = shows
      write_utilization-Shows ((thread, utilization) ∷ rest) all =
          let (callbacks, e) = has-some thread threads all.0 in
          rw e (
            bind-Shows (callback_lines-Shows _)
              (λ lines. bind-Shows (write_utilization-Shows rest all.1) (λ later. shows)))

  -- The reduction of `calculate_utilization_per_callback`, or that of the real one.
  abbrev pub reduction : Option (Quantile F) → Reduction F
  reduction (some q) = reduce_quantile ratios q
  reduction none = reduce_real ratios

  reduction-KeepsKeys : (q : Option (Quantile F)) → KeepsKeys (reduction q)
  reduction-KeepsKeys (some q) = reduce_quantile-KeepsKeys ratios q
  reduction-KeepsKeys none = reduce_real-KeepsKeys ratios

  -- Once the map of the threads, the utilizations of the callbacks (for a quantile, or the real ones) and those of the
  -- threads are calculated, the lines that are written neither miss a thread in the map nor deadlock or panic in the
  -- summaries of the callbacks.
  pub calculate_total_utilization-written :
      (env : Environment) (w : World) (s : CallbackDuration) (q : Option (Quantile F))
      (threads : Table Thread (List Ref)) (per_callback : PerCallback F)
      (per_thread : Table Thread F)
      → get_thread_callback_map w s ≡ ok threads
      → calculate_utilization_per_callback_internal ratios w env.alive.timer s (reduction q)
        ≡ ok per_callback
      → calculate_total_utilization ratios w per_callback ≡ ok per_thread
      → Shows
          (write_utilization ratios env w per_callback threads (sort_reversed ratios per_thread))
  unfolding get_thread_callback_map calculate_utilization_per_callback_internal
      calculate_total_utilization
  calculate_total_utilization-written env w s q threads per_callback per_thread m c t =
      let covered = of_Returns (thread_callbacks-Covers w s.execution_data []) m in
      let known : AllCallbacks (HasThread w threads) per_callback =
        of_Returns
          (per_callback-AllCallbacks (HasThread w threads) ratios (reduction q)
            (reduction-KeepsKeys q) w env.alive.timer s s.execution_data [] covered.1 tt)
          c in
      let keys : AllKeys (λ k. has k threads ≡ true) per_thread =
        of_Returns
          (total_utilization-AllKeys w (λ k. has k threads ≡ true) per_callback [] known tt) t in
      write_utilization-Shows env w threads per_callback _
        (sort_reversed-AllKeys (λ k. has k threads ≡ true) per_thread keys)

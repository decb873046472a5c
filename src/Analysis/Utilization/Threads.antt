-- ===== src/Analysis/Utilization/Threads.antt =====
-- The threads whose utilization is written: each has callbacks in the map of the threads, so that looking it up there
-- never panics.
use ros2trace_analyzer.Common.{
  ℕ, ℤ, Ref, Bool, true, Option, none, some, List, [], ◌∷◌, ok, ◌≡◌, inl, inr, Bool-cases, ◌==◌,
  str_eq_refl, arith,
}
use ros2trace_analyzer.Model.Callback.{Callback}
use ros2trace_analyzer.Processor.State.{World, Heap}
use ros2trace_analyzer.Analysis.Base.{lock}
use ros2trace_analyzer.Analysis.Returns.{
  Returns, returns, >>=-Returns, then-Returns, bind-Returns, weaken-Returns,
}
use ros2trace_analyzer.Analysis.Table.{
  Table, get, insert, update, add, or_default, ref_key, pair_key,
}
use ros2trace_analyzer.Analysis.CallbackDependency.{topic_key}
use ros2trace_analyzer.Analysis.CallbackDuration.{CallbackDuration, ExecutionData}
use ros2trace_analyzer.Analysis.Utilization.{
  Ratios, Thread, PerCallback, Reduction, add_executions, thread_callbacks, insert_known,
  callback_utilization, per_callback, reduce_known, timer_period, or_mean_time,
}
use ros2trace_analyzer.Analysis.Utilization.Keys.{
  has, has-insert, AllKeys, AllThreads, times_and_counts-AllKeys, KeepsKeys,
}

has-update :
    (k j : Thread) (f : List Ref → List Ref) (t : Table Thread (List Ref))
    → has j t ≡ true
    → has j (update k [] f t) ≡ true
unfolding update
has-update k j f t h = rw (has-insert j k (f (or_default [] (get k t))) t, h) (ground arith)

has-update_self :
    (k : Thread) (f : List Ref → List Ref) (t : Table Thread (List Ref))
    → has k (update k [] f t) ≡ true
unfolding update
has-update_self k f t =
    rw (has-insert k k (f (or_default [] (get k t))) t) (ground (arith, str_eq_refl k.0))

-- A thread of the host of an equal callback.
has-same_host :
    (c c' : Callback) (tid : ℕ) (f : List Ref → List Ref) (t : Table Thread (List Ref))
    → c ≡ c'
    → has (c'.hostname, tid) (update (c.hostname, tid) [] f t) ≡ true
has-same_host c c' tid f t e = rw (← e) (has-update_self (c.hostname, tid) f t)

some_unique : {A : Type 0} {o : Option A} {a b : A} → o ≡ some a → o ≡ some b → a ≡ b
some_unique p q = cc (p, q)

pub of_lock : {A : Type 0} (h : Heap A) (r : Ref) {a : A} → lock h r ≡ ok a → h.cell r ≡ some a
of_lock h r e = ground arith

-- What is asked of every thread of every callback.
abbrev pub AllExecuted : (Ref → ℕ → Type 0) → Table Ref (List ExecutionData) → Type 0
AllExecuted P [] = Unit {0}
AllExecuted P ((callback, executions) ∷ rest) =
    AllThreads (P callback) executions × AllExecuted P rest

module _ (w : World) where
  -- A callback has the thread in the map, under the name of its host.
  abbrev pub HasThread : Table Thread (List Ref) → Ref → ℕ → Type 0
  HasThread threads callback tid =
      (c : Callback) → w.callbacks.cell callback ≡ some c → has (c.hostname, tid) threads ≡ true

  -- Every thread of every callback is in the map.
  abbrev pub Covers : Table Thread (List Ref) → Table Ref (List ExecutionData) → Type 0
  Covers threads = AllExecuted (HasThread threads)

  -- No thread is lost.
  abbrev pub Grows : Table Thread (List Ref) → Table Thread (List Ref) → Type 0
  Grows before after = (k : Thread) → has k before ≡ true → has k after ≡ true

  add_executions-Covers :
      (callback : Ref) (executions : List ExecutionData) (threads : Table Thread (List Ref))
      → Returns
          (λ after. Grows threads after × AllThreads (HasThread after callback) executions)
          (add_executions w callback executions threads)
  unfolding add_executions
  add_executions-Covers callback [] threads = returns ((λ k h. h), tt)
  add_executions-Covers callback (d ∷ rest) threads =
      bind-Returns (lock w.callbacks callback) (λ c e.
        weaken-Returns (add_executions-Covers callback rest _) (λ after p. (
          (λ k h. p.0 k (has-update (c.hostname, d.tid) k (add callback) threads h)),
          (
            (λ c' e'.
                p.0 (c'.hostname, d.tid)
                  (has-same_host c c' d.tid (add callback) threads
                    (some_unique (of_lock w.callbacks callback e) e'))),
            p.1,
          ),
        )))

  Covers-Grows :
      (before after : Table Thread (List Ref)) (callback : Ref) (executions : List ExecutionData)
      → Grows before after
      → AllThreads (HasThread before callback) executions
      → AllThreads (HasThread after callback) executions
  Covers-Grows before after callback [] grows all = tt
  Covers-Grows before after callback (d ∷ rest) grows all = (
    (λ c e. grows (c.hostname, d.tid) (all.0 c e)),
    Covers-Grows before after callback rest grows all.1,
  )

  pub thread_callbacks-Covers :
      (executed : Table Ref (List ExecutionData)) (threads : Table Thread (List Ref))
      → Returns
          (λ after. Grows threads after × Covers after executed)
          (thread_callbacks w executed threads)
  unfolding thread_callbacks
  thread_callbacks-Covers [] threads = returns ((λ k h. h), tt)
  thread_callbacks-Covers ((callback, executions) ∷ rest) threads =
      >>=-Returns (add_executions-Covers callback executions threads) (λ middle p.
        weaken-Returns (thread_callbacks-Covers rest middle) (λ after q.
          ((λ k h. q.0 k (p.0 k h)), (Covers-Grows middle after callback executions q.0 p.1, q.1))))

-- The threads of the utilization of a callback hold of what is asked of them.
abbrev pub AllCallbacks : {F : Type 0} → (Ref → ℕ → Type 0) → PerCallback F → Type 0
AllCallbacks P [] = Unit {0}
AllCallbacks P ((callback, threads) ∷ rest) = AllKeys (P callback) threads × AllCallbacks P rest

module _ {F : Type 0} (P : Ref → ℕ → Type 0) (ratios : Ratios F) where
  insert-AllCallbacks :
      (callback : Ref) (threads : Table ℕ F) (t : PerCallback F)
      → AllCallbacks P t
      → AllKeys (P callback) threads
      → AllCallbacks P (insert callback threads t)
  unfolding insert
  insert-AllCallbacks callback threads [] all keys = (keys, tt)
  insert-AllCallbacks callback threads ((j, u) ∷ t) all keys = elim (Bool-cases (j == callback)) [
    | inl same ↦ rw same (keys, all.1)
    | inr other ↦ rw other (all.0, insert-AllCallbacks callback threads t all.1 keys)
  ]

  abbrev AllKnown : Ref → Option (Table ℕ F) → Type 0
  AllKnown callback none = Unit {0}
  AllKnown callback (some threads) = AllKeys (P callback) threads

  insert_known-AllCallbacks :
      (callback : Ref) (utilization : Option (Table ℕ F)) (t : PerCallback F)
      → AllCallbacks P t
      → AllKnown callback utilization
      → AllCallbacks P (insert_known ratios callback utilization t)
  insert_known-AllCallbacks callback none t all known = all
  insert_known-AllCallbacks callback (some threads) t all known =
      insert-AllCallbacks callback threads t all known

  module _ (reduce : Reduction F) (keeps : KeepsKeys reduce) where
    reduce_known-AllKnown :
        (callback : Ref) (executions : List ExecutionData) (time : Option ℤ)
        → AllThreads (P callback) executions
        → Returns (AllKnown callback) (reduce_known ratios reduce executions time)
    unfolding reduce_known
    reduce_known-AllKnown callback executions none all = returns tt
    reduce_known-AllKnown callback executions (some time) all =
        >>=-Returns (times_and_counts-AllKeys (P callback) executions [] all tt) (λ stats keys.
          >>=-Returns (keeps (P callback) stats executions _ keys) (λ u keys'. returns keys'))

    module _ (w : World) (alive : Ref → Bool) (s : CallbackDuration) where
      pub per_callback-AllCallbacks :
          (executed : Table Ref (List ExecutionData)) (t : PerCallback F)
          → AllExecuted P executed
          → AllCallbacks P t
          → Returns (AllCallbacks P) (per_callback ratios w alive s reduce executed t)
      unfolding per_callback callback_utilization
      per_callback-AllCallbacks [] t all known = returns known
      per_callback-AllCallbacks ((callback, executions) ∷ rest) t all known =
          >>=-Returns
            (then-Returns (lock w.callbacks callback) (λ c.
              then-Returns (timer_period w alive c.caller) (λ period.
                then-Returns (or_mean_time callback s period)
                  (λ time. reduce_known-AllKnown callback executions time all.0))))
            (λ utilization keys.
              per_callback-AllCallbacks rest (insert_known ratios callback utilization t) all.1
                (insert_known-AllCallbacks callback utilization t known keys))

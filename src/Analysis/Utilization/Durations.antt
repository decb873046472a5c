-- ===== src/Analysis/Utilization/Durations.antt =====
-- The quantile of the durations of each thread, in src/analysis/utilization.rs: it is there for every thread that
-- executed something.
use ros2trace_analyzer.Common.{
  ℕ, suc, ◌+◌, ◌≤◌, ◌^◌, ℤ, true, some, List, [], ◌∷◌, ◌++◌, length, length-append, ok, ◌≡◌, refl,
  ◌∙◌, inl, inr, Bool-cases, ◌==◌, ==_refl, arith,
}
use ros2trace_analyzer.Statistics.Float.{IsIeee}
use ros2trace_analyzer.Statistics.{
  i64_order, Quantile, insert_sorted, sort, from_unsorted, quantile,
}
use ros2trace_analyzer.Statistics.Sort.{from_unsorted-sorts}
use ros2trace_analyzer.Statistics.Quantiles.{IsQuantile, quantile-nearest_rank}
use ros2trace_analyzer.Analysis.Returns.{of_Returns}
use ros2trace_analyzer.Analysis.Table.{Table, get, insert, update, push, ref_key}
use ros2trace_analyzer.Analysis.Table.Laws.{series, total, total-push}
use ros2trace_analyzer.Analysis.CallbackDuration.{ExecutionData}
use ros2trace_analyzer.Analysis.Utilization.{
  Ratios, times_and_counts, durations_per_thread, quantile_durations, quantile_ratios,
  reduce_quantile,
}
use ros2trace_analyzer.Analysis.Utilization.Keys.{
  has, has-some, has-insert, AllKeys, AllThreads, times_and_counts-AllKeys,
}

-- Every list of a table has a value.
abbrev Nonempty : Table ℕ (List ℤ) → Type 0
Nonempty [] = Unit {0}
Nonempty ((k, vs) ∷ t) = (1 ≤ length vs) × Nonempty t

insert-Nonempty :
    (k : ℕ) (vs : List ℤ) (t : Table ℕ (List ℤ))
    → 1 ≤ length vs
    → Nonempty t
    → Nonempty (insert k vs t)
unfolding insert
insert-Nonempty k vs [] h all = (h, tt)
insert-Nonempty k vs ((j, us) ∷ t) h all = elim (Bool-cases (j == k)) [
  | inl same ↦ rw same (h, all.1)
  | inr other ↦ rw other (all.0, insert-Nonempty k vs t h all.1)
]

push-Nonempty : (k : ℕ) (v : ℤ) (t : Table ℕ (List ℤ)) → Nonempty t → Nonempty (push k v t)
unfolding push update
push-Nonempty k v t all =
    insert-Nonempty k _ t (omega (arith, length-append (series k t) (v ∷ []))) all

has-push : (j k : ℕ) (v : ℤ) (t : Table ℕ (List ℤ)) → has j t ≡ true → has j (push k v t) ≡ true
unfolding push update
has-push j k v t h = rw (has-insert j k (series k t ++ v ∷ []) t, h) (ground arith)

has-push_self : (k : ℕ) (v : ℤ) (t : Table ℕ (List ℤ)) → has k (push k v t) ≡ true
unfolding push update
has-push_self k v t = rw (has-insert k k (series k t ++ v ∷ []) t, ==_refl k) refl

-- What the table of the durations has: a nonempty list for each thread, as many durations as there were executions.
record HasDurations (before : Table ℕ (List ℤ)) (executions : List ExecutionData)
    (after : Table ℕ (List ℤ)) : Type 0 where
  nonempty : Nonempty after
  counted : total after ≡ total before + length executions
  kept : (k : ℕ) → has k before ≡ true → has k after ≡ true
  listed : AllThreads (λ k. has k after ≡ true) executions

durations_per_thread-HasDurations :
    (executions : List ExecutionData) (t : Table ℕ (List ℤ))
    → Nonempty t
    → HasDurations t executions (durations_per_thread executions t)
unfolding durations_per_thread
durations_per_thread-HasDurations [] t all = record {
  nonempty = all;
  counted = omega arith;
  kept = λ k h. h;
  listed = tt;
}
durations_per_thread-HasDurations (d ∷ rest) t all =
    let ih =
      durations_per_thread-HasDurations rest (push d.tid d.duration t)
        (push-Nonempty d.tid d.duration t all) in
    record {
      nonempty = ih.nonempty;
      counted = omega (arith, ih.counted, total-push d.tid d.duration t);
      kept = λ k h. ih.kept k (has-push k d.tid d.duration t h);
      listed = (ih.kept d.tid (has-push_self d.tid d.duration t), ih.listed);
    }

length-insert_sorted : (x : ℤ) (ys : List ℤ) → length (insert_sorted x ys) ≡ suc (length ys)
unfolding insert_sorted
length-insert_sorted x [] = refl
length-insert_sorted x (y ∷ ys) = ground (arith, length-insert_sorted x ys)

length-sort : (xs : List ℤ) → length (sort xs) ≡ length xs
unfolding sort
length-sort [] = refl
length-sort (x ∷ xs) = omega (arith, length-insert_sorted x (sort xs), length-sort xs)

module _ {F : Type 0} (ratios : Ratios F) (ieee : IsIeee ratios.floats) (q : Quantile F)
    (h : IsQuantile ratios.floats q) where
  quantile-some :
      (xs : List ℤ)
      → 1 ≤ length xs
      → length xs ≤ 2 ^ 53
      → (v : ℤ) × (quantile ratios.floats q (from_unsorted xs) ≡ some v)
  unfolding from_unsorted
  quantile-some xs nonempty small =
      let (v, e, up, low) =
        quantile-nearest_rank ratios.floats ieee q (from_unsorted xs) h (from_unsorted-sorts xs).0
          (omega (arith, length-sort xs)) (omega (arith, length-sort xs)) in
      (v, e)

  quantile_durations-returns :
      (t : Table ℕ (List ℤ))
      → Nonempty t
      → total t ≤ 2 ^ 53
      → (durations : Table ℕ ℤ) × (quantile_durations ratios q t ≡ ok durations)
        × ((k : ℕ) → has k durations ≡ has k t)
  unfolding quantile_durations get total
  quantile_durations-returns [] all small = ([], refl, λ k. refl)
  quantile_durations-returns ((thread, vs) ∷ t) all small =
      let (v, e) = quantile-some vs all.0 (omega arith) in
      let (rest, e', same) = quantile_durations-returns t all.1 (omega arith) in
      ((thread, v) ∷ rest, rw (e, e') refl, λ k. ground (arith, same k))

  quantile_ratios-returns :
      (whole : F) (durations : Table ℕ ℤ) (stats : Table ℕ (ℕ × ℤ))
      → AllKeys (λ k. has k durations ≡ true) stats
      → (utilization : Table ℕ F) × (quantile_ratios ratios whole durations stats ≡ ok utilization)
  unfolding quantile_ratios
  quantile_ratios-returns whole durations [] all = ([], refl)
  quantile_ratios-returns whole durations ((thread, (count, time)) ∷ rest) all =
      let (duration, e) = has-some thread durations all.0 in
      let (later, e') = quantile_ratios-returns whole durations rest all.1 in
      (
        (
          thread,
          ratios.div (ratios.floats.mul (ratios.of_ℤ duration) (ratios.floats.of_ℕ count)) whole,
        )
            ∷ later,
        rw (e, e') refl,
      )

  threads_have :
      (before : Table ℕ (List ℤ)) (durations : Table ℕ ℤ) (executions : List ExecutionData)
      → ((k : ℕ) → has k durations ≡ has k before)
      → AllThreads (λ k. has k before ≡ true) executions
      → AllThreads (λ k. has k durations ≡ true) executions
  threads_have before durations [] same all = tt
  threads_have before durations (d ∷ rest) same all =
      (same d.tid ∙ all.0, threads_have before durations rest same all.1)

  -- Where the times of the threads are added up without an overflow, and there are at most 2 ^ 53 executions, the
  -- reduction by a quantile between 0 and 1 returns: each thread that it looks up has a quantile of its durations.
  pub times_and_counts-reduce_quantile :
      (executions : List ExecutionData) (stats : Table ℕ (ℕ × ℤ)) (time : F)
      → times_and_counts executions [] ≡ ok stats
      → length executions ≤ 2 ^ 53
      → (utilization : Table ℕ F) × (reduce_quantile ratios q stats executions time
          ≡ ok utilization)
  unfolding reduce_quantile total
  times_and_counts-reduce_quantile executions stats time e small =
      let table = durations_per_thread-HasDurations executions [] tt in
      let (durations, e', same) =
        quantile_durations-returns (durations_per_thread executions []) table.nonempty
          (omega (arith, table.counted)) in
      let listed = threads_have _ durations executions same table.listed in
      let keys =
        of_Returns (times_and_counts-AllKeys (λ k. has k durations ≡ true) executions [] listed tt)
          e in
      rw e' (quantile_ratios-returns _ durations stats keys)

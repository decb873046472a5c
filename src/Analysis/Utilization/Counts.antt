-- ===== src/Analysis/Utilization/Counts.antt =====
-- What src/analysis/utilization.rs counts for each thread: how often it ran a callback, and for how long.
use ros2trace_analyzer.Common.{
  ℕ, ◌+◌, ℤ, pos, ◌+ℤ◌, +ℤ_assoc, +ℤ_zero, zero_+ℤ, List, [], ◌∷◌, map, length, ok, ◌≡◌, inl, inr,
  Bool-cases, ◌==◌, ==_iff, if◌then◌else◌, arith,
}
use ros2trace_analyzer.Statistics.{sum}
use ros2trace_analyzer.Analysis.Returns.{Returns, returns, bind-Returns, weaken-Returns, of_Returns}
use ros2trace_analyzer.Analysis.Table.{Table, get, insert, or_default, ref_key}
use ros2trace_analyzer.Analysis.Table.Laws.{get-insert}
use ros2trace_analyzer.Analysis.CallbackDuration.{ExecutionData}
use ros2trace_analyzer.Analysis.Utilization.{times_and_counts, add_times}

-- The executions of one thread.
unfoldable pub on_thread : ℕ → List ExecutionData → List ExecutionData
on_thread thread [] = []
on_thread thread (d ∷ rest) =
    if d.tid == thread then d ∷ on_thread thread rest else on_thread thread rest

abbrev pub time_of : List ExecutionData → ℤ
time_of executions = sum (map (λ d. d.duration) executions)

-- The count and the time of a thread; none yet where it is missing.
abbrev pub stats_of : ℕ → Table ℕ (ℕ × ℤ) → ℕ × ℤ
stats_of thread stats = or_default (0, pos 0) (get thread stats)

add_times-ok : (a b : ℤ) {t : ℤ} → add_times a b ≡ ok t → t ≡ a +ℤ b
unfolding add_times
add_times-ok a b e = ground arith

abbrev Counted : Table ℕ (ℕ × ℤ) → List ExecutionData → Table ℕ (ℕ × ℤ) → Type 0
Counted before executions after =
    (thread : ℕ)
    → stats_of thread after ≡ (
      (stats_of thread before).0 + length (on_thread thread executions),
      (stats_of thread before).1 +ℤ time_of (on_thread thread executions),
    )

-- One more execution, of this thread or of another one.
step :
    (d : ExecutionData) (rest : List ExecutionData) (stats after : Table ℕ (ℕ × ℤ)) (time : ℤ)
    (thread : ℕ)
    → time ≡ (stats_of d.tid stats).1 +ℤ d.duration
    → stats_of thread after ≡ (
      (stats_of thread (insert d.tid ((stats_of d.tid stats).0 + 1, time) stats)).0
          + length (on_thread thread rest),
      (stats_of thread (insert d.tid ((stats_of d.tid stats).0 + 1, time) stats)).1
          +ℤ time_of (on_thread thread rest),
    )
    → stats_of thread after ≡ (
      (stats_of thread stats).0 + length (on_thread thread (d ∷ rest)),
      (stats_of thread stats).1 +ℤ time_of (on_thread thread (d ∷ rest)),
    )
unfolding on_thread sum
step d rest stats after time thread t counted = elim (Bool-cases (d.tid == thread)) [
  | inl same ↦
      let e = (==_iff d.tid thread).0 same in
      ground (
        arith,
        e,
        get-insert thread d.tid ((stats_of d.tid stats).0 + 1, time) stats,
        +ℤ_assoc (stats_of thread stats).1 d.duration (time_of (on_thread thread rest)),
      )
  | inr other ↦ ground (arith, get-insert thread d.tid ((stats_of d.tid stats).0 + 1, time) stats)
]

times_and_counts-Counted :
    (executions : List ExecutionData) (stats : Table ℕ (ℕ × ℤ))
    → Returns (Counted stats executions) (times_and_counts executions stats)
unfolding times_and_counts on_thread sum
times_and_counts-Counted [] stats =
    returns (λ thread. ground (arith, +ℤ_zero (stats_of thread stats).1))
times_and_counts-Counted (d ∷ rest) stats =
    bind-Returns (add_times (stats_of d.tid stats).1 d.duration) (λ time e.
      weaken-Returns (times_and_counts-Counted rest (insert d.tid _ stats)) (λ after counted thread.
        step d rest stats after time thread (add_times-ok _ _ e) (counted thread)))

-- Where the times of the threads are added up without an overflow, each thread has the number of its executions and the
-- sum of their durations.
pub times_and_counts-stats :
    (executions : List ExecutionData) (stats : Table ℕ (ℕ × ℤ))
    → times_and_counts executions [] ≡ ok stats
    → (thread : ℕ)
    → stats_of thread stats
      ≡ (length (on_thread thread executions), time_of (on_thread thread executions))
unfolding get
times_and_counts-stats executions stats e thread =
    let counted = of_Returns (times_and_counts-Counted executions []) e thread in
    ground (arith, counted, zero_+ℤ (time_of (on_thread thread executions)))

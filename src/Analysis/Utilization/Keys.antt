-- ===== src/Analysis/Utilization/Keys.antt =====
-- Which keys the tables of src/analysis/utilization.rs have: those of the threads that executed something.
use ros2trace_analyzer.Common.{
  ℕ, ℤ, Bool, true, false, Option, none, some, List, [], ◌∷◌, ◌≡◌, refl, inl, inr, ◌||◌, Bool-cases,
  arith,
}
use ros2trace_analyzer.Statistics.{Quantile}
use ros2trace_analyzer.Analysis.Base.{expect}
use ros2trace_analyzer.Analysis.Returns.{Returns, returns, >>=-Returns, then-Returns}
use ros2trace_analyzer.Analysis.Table.{Key, Table, get, insert, ref_key}
use ros2trace_analyzer.Analysis.Table.Laws.{get-insert}
use ros2trace_analyzer.Analysis.CallbackDuration.{ExecutionData}
use ros2trace_analyzer.Analysis.Utilization.{
  Ratios, Reduction, times_and_counts, real_ratios, reduce_real, quantile_durations,
  quantile_ratios, reduce_quantile, durations_per_thread,
}

abbrev is_some : {V : Type 0} → Option V → Bool
is_some none = false
is_some (some v) = true

-- Whether a table has a key.
abbrev pub has : {K V : Type 0} ⦃key : Key K⦄ → K → Table K V → Bool
has k t = is_some (get k t)

of_is_some : {V : Type 0} (o : Option V) → is_some o ≡ true → (v : V) × (o ≡ some v)
of_is_some none e = absurd (cc e)
of_is_some (some v) e = (v, refl)

pub has-some :
    {K V : Type 0} ⦃key : Key K⦄ (k : K) (t : Table K V)
    → has k t ≡ true
    → (v : V) × (get k t ≡ some v)
has-some k t h = of_is_some (get k t) h

pub has-insert :
    {K V : Type 0} ⦃key : Key K⦄ (j k : K) (v : V) (t : Table K V)
    → has j (insert k v t) ≡ (key.same k j || has j t)
has-insert ⦃key⦄ j k v t = ground (arith, get-insert j k v t)

-- What holds of every key that is listed.
abbrev pub AllKeys : {K V : Type 0} → (K → Type 0) → Table K V → Type 0
AllKeys P [] = Unit {0}
AllKeys P ((k, v) ∷ t) = P k × AllKeys P t

pub insert-AllKeys :
    {K V : Type 0} ⦃key : Key K⦄ (P : K → Type 0) (k : K) (v : V) (t : Table K V)
    → AllKeys P t
    → P k
    → AllKeys P (insert k v t)
unfolding insert
insert-AllKeys P k v [] all p = (p, tt)
insert-AllKeys ⦃key⦄ P k v ((j, u) ∷ t) all p = elim (Bool-cases (key.same j k)) [
  | inl same ↦ rw same (p, all.1)
  | inr other ↦ rw other (all.0, insert-AllKeys P k v t all.1 p)
]

-- What holds of every thread that executed something.
abbrev pub AllThreads : (ℕ → Type 0) → List ExecutionData → Type 0
AllThreads P [] = Unit {0}
AllThreads P (d ∷ rest) = P d.tid × AllThreads P rest

pub times_and_counts-AllKeys :
    (P : ℕ → Type 0) (executions : List ExecutionData) (stats : Table ℕ (ℕ × ℤ))
    → AllThreads P executions
    → AllKeys P stats
    → Returns (AllKeys P) (times_and_counts executions stats)
unfolding times_and_counts
times_and_counts-AllKeys P [] stats all keys = returns keys
times_and_counts-AllKeys P (d ∷ rest) stats all keys = then-Returns _ (λ time.
    times_and_counts-AllKeys P rest (insert d.tid _ stats) all.1
      (insert-AllKeys P d.tid _ stats keys all.0))

-- A reduction answers for no thread but those of the table that it is given.
abbrev pub KeepsKeys : {F : Type 0} → Reduction F → Type 1
KeepsKeys {F} reduce =
    (P : ℕ → Type 0) (stats : Table ℕ (ℕ × ℤ)) (executions : List ExecutionData) (time : F)
    → AllKeys P stats
    → Returns (AllKeys P) (reduce stats executions time)

module _ {F : Type 0} (ratios : Ratios F) where
  real_ratios-AllKeys :
      (P : ℕ → Type 0) (whole : F) (stats : Table ℕ (ℕ × ℤ))
      → AllKeys P stats
      → AllKeys P (real_ratios ratios whole stats)
  unfolding real_ratios
  real_ratios-AllKeys P whole [] keys = tt
  real_ratios-AllKeys P whole ((thread, (count, time)) ∷ rest) keys =
      (keys.0, real_ratios-AllKeys P whole rest keys.1)

  pub reduce_real-KeepsKeys : KeepsKeys (reduce_real ratios)
  unfolding reduce_real
  reduce_real-KeepsKeys P stats executions time keys = returns (real_ratios-AllKeys P _ stats keys)

  quantile_ratios-AllKeys :
      (P : ℕ → Type 0) (whole : F) (durations : Table ℕ ℤ) (stats : Table ℕ (ℕ × ℤ))
      → AllKeys P stats
      → Returns (AllKeys P) (quantile_ratios ratios whole durations stats)
  unfolding quantile_ratios
  quantile_ratios-AllKeys P whole durations [] keys = returns tt
  quantile_ratios-AllKeys P whole durations ((thread, (count, time)) ∷ rest) keys =
      then-Returns (expect (get thread durations)) (λ duration.
        >>=-Returns (quantile_ratios-AllKeys P whole durations rest keys.1)
          (λ later all. returns (keys.0, all)))

  pub reduce_quantile-KeepsKeys : (q : Quantile F) → KeepsKeys (reduce_quantile ratios q)
  unfolding reduce_quantile
  reduce_quantile-KeepsKeys q P stats executions time keys =
      then-Returns (quantile_durations ratios q (durations_per_thread executions []))
        (λ durations. quantile_ratios-AllKeys P _ durations stats keys)

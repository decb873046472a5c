-- ===== src/Program/Counters.antt =====
-- The counters of src/main.rs, and the end of its loop.
use ros2trace_analyzer.Common.{
  ℕ, zero, suc, ◌+◌, ◌≤◌, ◌<◌, List, [], ◌∷◌, length, Option, none, some, ok, ◌≡◌, refl, arith,
}
use ros2trace_analyzer.Events.Raw
use ros2trace_analyzer.Events.Processed
use ros2trace_analyzer.Processor.Exec.{Run, done, failed, faulted}
use ros2trace_analyzer.Processor.Callers.{Liveness}
use ros2trace_analyzer.Processor.Dispatch.{MaybeProcessed, processed, raw, process_raw_event}
use ros2trace_analyzer.Processor.Trace.{Reachable}
use ros2trace_analyzer.Analysis.Returns.{
  Returns, returns, faults, >>=-Returns, then-Returns, of_Returns,
}
use ros2trace_analyzer.Analysis.EventAnalysis.{EventAnalysis}
use ros2trace_analyzer.Program.{
  Message, boundary, skipped, event, ProcessedEventsIter, Item, processed_event, failure, Next,
  Outcome, finished, stopped, after_event, next, run, new,
}

-- All that was counted.
abbrev pub counted : {S : Type 0} → ProcessedEventsIter S → ℕ
counted it =
    it.ros_processed_events + it.ros_unsupported_events + it.ros_processing_failures
    + it.other_events + it.other_messages

-- The messages that count.
unfoldable pub countable : List Message → ℕ
countable [] = 0
countable (boundary ∷ ms) = countable ms
countable (skipped ∷ ms) = suc (countable ms)
countable (event e ∷ ms) = suc (countable ms)

abbrev left : Option (Item × List Message) → List Message
left none = []
left (some (item, ms)) = ms

abbrev IsShorter : ℕ → Option (Item × List Message) → Type 0
IsShorter n none = Unit {0}
IsShorter n (some (item, ms)) = length ms < n

-- A failure counts as one.
abbrev failures : Option (Item × List Message) → ℕ
failures none = 0
failures (some (processed_event e, ms)) = 0
failures (some (failure x, ms)) = 1

record Advances {S : Type 0} (k n : ℕ) (r : Option (Item × List Message) × ProcessedEventsIter S)
    : Type 0 where
  pub counts : counted r.1 + countable (left r.0) ≡ k
  pub shorter : IsShorter n r.0
  pub failures : r.1.ros_processing_failures ≡ failures r.0
  pub reachable : Reachable r.1.processor

module _ {S : Type 0} (analysis : EventAnalysis S) where
  after_event-Returns :
      (alive : Liveness) (e : Raw.FullEvent) (ms : List Message)
      (rest : ProcessedEventsIter S → Next S) (it : ProcessedEventsIter S)
      (r : Run (MaybeProcessed Processed.FullEvent Raw.FullEvent)) (k n : ℕ)
      → process_raw_event alive e it.processor ≡ r
      → Reachable it.processor
      → it.ros_processing_failures ≡ 0
      → suc (counted it + countable ms) ≡ k
      → length ms < n
      → ((it' : ProcessedEventsIter S)
          → Reachable it'.processor
          → it'.ros_processing_failures ≡ 0
          → counted it' + countable ms ≡ k
          → Returns (Advances k n) (rest it'))
      → Returns (Advances k n) (after_event analysis ms rest it r)
  unfolding after_event
  after_event-Returns alive e ms rest it (done (processed x) w) k n eq h z c l later =
      then-Returns (analysis.process_event w x it.analyses) (λ s. returns (record {
        counts = omega arith;
        shorter = l;
        failures = omega arith;
        reachable = Reachable.after_event alive e h eq;
      }))
  after_event-Returns alive e ms rest it (done (raw x) w) k n eq h z c l later =
      later _ (Reachable.after_event alive e h eq) z (omega arith)
  after_event-Returns alive e ms rest it (failed x w) k n eq h z c l later = returns (record {
    counts = omega arith;
    shorter = l;
    failures = omega arith;
    reachable = Reachable.after_failure alive e h eq;
  })
  after_event-Returns alive e ms rest it (faulted x) k n eq h z c l later = faults

  next-Returns :
      (ms : List Message) (it : ProcessedEventsIter S) (k n : ℕ)
      → Reachable it.processor
      → it.ros_processing_failures ≡ 0
      → counted it + countable ms ≡ k
      → length ms ≤ n
      → Returns (Advances k n) (next analysis ms it)
  unfolding next countable
  next-Returns [] it k n h z c l =
      then-Returns (analysis.finalize it.processor it.analyses)
        (λ s. returns (record { counts = c; shorter = tt; failures = z; reachable = h }))
  next-Returns (boundary ∷ ms) it k n h z c l = next-Returns ms it k n h z c (omega arith)
  next-Returns (skipped ∷ ms) it k n h z c l = next-Returns ms _ k n h z (omega arith) (omega arith)
  next-Returns (event none ∷ ms) it k n h z c l =
      next-Returns ms _ k n h z (omega arith) (omega arith)
  next-Returns (event (some (alive, e)) ∷ ms) it k n h z c l =
      after_event-Returns alive e ms (λ it'. next analysis ms it') it _ k n refl h z (omega arith)
        (omega arith) (λ it' h' z' c'. next-Returns ms it' k n h' z' c' (omega arith))

  -- What holds when the loop is over: it is over before the fuel is, and all that was read was counted.
  abbrev pub HasEnded : ℕ → Option (Outcome S) → Type 0
  HasEnded k none = ⊥
  HasEnded k (some (finished it)) =
      (counted it ≡ k) × (it.ros_processing_failures ≡ 0) × Reachable it.processor
  HasEnded k (some (stopped error unread it)) =
      (counted it + countable unread ≡ k)
      × (it.ros_processing_failures ≡ 1)
      × Reachable it.processor

  go_on-Returns :
      (fuel n : ℕ) (o : Option (Item × List Message)) (it : ProcessedEventsIter S) (k : ℕ)
      → Advances k n (o, it)
      → n ≤ fuel
      → ((ms : List Message)
          → length ms < fuel
          → it.ros_processing_failures ≡ 0
          → counted it + countable ms ≡ k
          → Returns (HasEnded k) (run analysis fuel ms it))
      → Returns (HasEnded k) (elim o [
        | none ↦ ok (some (finished it))
        | some (processed_event e, ms) ↦ run analysis fuel ms it
        | some (failure error, ms) ↦ ok (some (stopped error ms it))
      ])
  unfolding countable
  go_on-Returns fuel n none it k a l later =
      returns (omega (arith, a.counts), a.failures, a.reachable)
  go_on-Returns fuel n (some (processed_event e, ms)) it k a l later =
      later ms (omega (arith, a.shorter)) a.failures a.counts
  go_on-Returns fuel n (some (failure x, ms)) it k a l later =
      returns (a.counts, a.failures, a.reachable)

  run-Returns :
      (fuel : ℕ) (ms : List Message) (it : ProcessedEventsIter S) (k : ℕ)
      → length ms < fuel
      → Reachable it.processor
      → it.ros_processing_failures ≡ 0
      → counted it + countable ms ≡ k
      → Returns (HasEnded k) (run analysis fuel ms it)
  unfolding run
  run-Returns zero ms it k l h z c = absurd (omega arith)
  run-Returns (suc fuel) ms it k l h z c =
      >>=-Returns (next-Returns ms it k (length ms) h z c (omega arith)) (λ r a.
        go_on-Returns fuel (length ms) r.0 r.1 k a (omega arith)
          (λ ms' l' z' c'. run-Returns fuel ms' r.1 k l' a.reachable z' c'))

  -- With fuel for each message and one more, a loop over the items that neither the processor nor the analysis
  -- faults comes to an end: of the trace, with no failure, or at the first failure. Every message that was read and
  -- is no boundary was then counted once, and the state of the processor is a reachable one.
  pub run-ends :
      (messages : List Message) (s : S) (o : Option (Outcome S))
      → run analysis (suc (length messages)) messages (new s) ≡ ok o
      → HasEnded (countable messages) o
  run-ends messages s o e =
      of_Returns
        (run-Returns (suc (length messages)) messages (new s) (countable messages) (omega arith)
          Reachable.start refl (omega arith))
        e

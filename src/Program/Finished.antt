-- ===== src/Program/Finished.antt =====
-- What the analyses keep through the loop of src/main.rs, and what finalize adds at its end.
use ros2trace_analyzer.Common.{ℕ, zero, suc, List, [], ◌∷◌, Option, none, some, ok}
use ros2trace_analyzer.Events.Raw
use ros2trace_analyzer.Events.Processed
use ros2trace_analyzer.Processor.State.{World}
use ros2trace_analyzer.Processor.Exec.{Run, done, failed, faulted}
use ros2trace_analyzer.Processor.Dispatch.{MaybeProcessed, processed, raw}
use ros2trace_analyzer.Analysis.Returns.{Returns, returns, faults, >>=-Returns}
use ros2trace_analyzer.Analysis.EventAnalysis.{EventAnalysis}
use ros2trace_analyzer.Program.{
  Message, boundary, skipped, event, ProcessedEventsIter, Item, processed_event, failure, Next,
  Outcome, finished, stopped, after_event, next, run,
}

module _ {S : Type 0} (analysis : EventAnalysis S) (P Q : S → Type 0)
    (keeps : (w : World) (e : Processed.FullEvent) (s : S)
      → P s
      → Returns P (analysis.process_event w e s))
    (closes : (w : World) (s : S) → P s → Returns Q (analysis.finalize w s)) where
  -- After an item, and at the end.
  abbrev Kept : Option (Item × List Message) × ProcessedEventsIter S → Type 0
  Kept (none, it) = Q it.analyses
  Kept (some item, it) = P it.analyses

  abbrev pub Finished : Option (Outcome S) → Type 0
  Finished none = Unit {0}
  Finished (some (finished it)) = Q it.analyses
  Finished (some (stopped error unread it)) = Unit {0}

  after_event-Kept :
      (ms : List Message) (rest : ProcessedEventsIter S → Next S) (it : ProcessedEventsIter S)
      (r : Run (MaybeProcessed Processed.FullEvent Raw.FullEvent))
      → P it.analyses
      → ((it' : ProcessedEventsIter S) → P it'.analyses → Returns Kept (rest it'))
      → Returns Kept (after_event analysis ms rest it r)
  unfolding after_event
  after_event-Kept ms rest it (done (processed x) w) p later =
      >>=-Returns (keeps w x it.analyses p) (λ s p'. returns p')
  after_event-Kept ms rest it (done (raw x) w) p later = later _ p
  after_event-Kept ms rest it (failed x w) p later = returns p
  after_event-Kept ms rest it (faulted x) p later = faults

  next-Kept :
      (ms : List Message) (it : ProcessedEventsIter S)
      → P it.analyses
      → Returns Kept (next analysis ms it)
  unfolding next
  next-Kept [] it p = >>=-Returns (closes it.processor it.analyses p) (λ s q. returns q)
  next-Kept (boundary ∷ ms) it p = next-Kept ms it p
  next-Kept (skipped ∷ ms) it p = next-Kept ms _ p
  next-Kept (event none ∷ ms) it p = next-Kept ms _ p
  next-Kept (event (some (alive, e)) ∷ ms) it p =
      after_event-Kept ms (λ it'. next analysis ms it') it _ p (λ it' p'. next-Kept ms it' p')

  go_on-Finished :
      (fuel : ℕ) (o : Option (Item × List Message)) (it : ProcessedEventsIter S)
      → Kept (o, it)
      → ((ms : List Message) → P it.analyses → Returns Finished (run analysis fuel ms it))
      → Returns Finished (elim o [
        | none ↦ ok (some (finished it))
        | some (processed_event e, ms) ↦ run analysis fuel ms it
        | some (failure error, ms) ↦ ok (some (stopped error ms it))
      ])
  go_on-Finished fuel none it q later = returns q
  go_on-Finished fuel (some (processed_event e, ms)) it p later = later ms p
  go_on-Finished fuel (some (failure x, ms)) it p later = returns tt

  pub run-Finished :
      (fuel : ℕ) (ms : List Message) (it : ProcessedEventsIter S)
      → P it.analyses
      → Returns Finished (run analysis fuel ms it)
  unfolding run
  run-Finished zero ms it p = returns tt
  run-Finished (suc fuel) ms it p =
      >>=-Returns (next-Kept ms it p)
        (λ r kept. go_on-Finished fuel r.0 r.1 kept (λ ms' p'. run-Finished fuel ms' r.1 p'))

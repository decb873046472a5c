-- ===== src/Program.antt =====
-- `ProcessedEventsIter` of src/main.rs: the messages of a trace go through the processor and the analyses, and are
-- counted. The messages come from babeltrace, with the events that could be read out of them.
pub mod Analyses
pub mod Outputs
pub mod Finished
pub mod Counters
pub mod Tests
use ros2trace_analyzer.Common.{
  ℕ, zero, suc, ◌+◌, List, [], ◌∷◌, Option, none, some, Error, Result, ok, fault,
}
use ros2trace_analyzer.Events.Raw
use ros2trace_analyzer.Events.Processed
use ros2trace_analyzer.Processor.State.{World, init}
use ros2trace_analyzer.Processor.Exec.{Run, done, failed, faulted}
use ros2trace_analyzer.Processor.Callers.{Liveness}
use ros2trace_analyzer.Processor.Dispatch.{MaybeProcessed, processed, raw, process_raw_event}
use ros2trace_analyzer.Analysis.Base.{◌>>=◌}
use ros2trace_analyzer.Analysis.EventAnalysis.{EventAnalysis}

pub data Message : Type 0 where
  -- The beginning or the end of a stream or a packet.
  boundary : Message
  -- Discarded events or packets, or inactivity.
  skipped : Message
  -- An event, with the objects that are alive when it comes; `none` where it is not supported.
  event : Option (Liveness × Raw.FullEvent) → Message

pub record ProcessedEventsIter (S : Type 0) : Type 0 where
  pub processor : World
  pub analyses : S
  pub ros_processed_events : ℕ
  pub ros_unsupported_events : ℕ
  pub ros_processing_failures : ℕ
  pub other_events : ℕ
  pub other_messages : ℕ

abbrev pub new : {S : Type 0} → S → ProcessedEventsIter S
new analyses = record {
  processor = init;
  analyses = analyses;
  ros_processed_events = 0;
  ros_unsupported_events = 0;
  ros_processing_failures = 0;
  other_events = 0;
  other_messages = 0;
}

pub data Item : Type 0 where
  processed_event : Processed.FullEvent → Item
  failure : Error → Item

-- The item, and what is left of the messages; `none` at the end.
abbrev pub Next : Type 0 → Type 0
Next S = Result (Option (Item × List Message) × ProcessedEventsIter S)

-- What the loop over the items comes to; `stopped` has the messages that were not read.
pub data Outcome (S : Type 0) : Type 0 where
  finished : ProcessedEventsIter S → Outcome S
  stopped : Error → List Message → ProcessedEventsIter S → Outcome S

module _ {S : Type 0} (analysis : EventAnalysis S) where
  -- The match on the result of the processor; `rest` goes on with the messages that are left.
  unfoldable pub after_event :
      List Message
      → (ProcessedEventsIter S → Next S)
      → ProcessedEventsIter S
      → Run (MaybeProcessed Processed.FullEvent Raw.FullEvent)
      → Next S
  after_event messages rest it (done (processed e) w) = do
    analyses ← analysis.process_event w e it.analyses
    ok (
      some (processed_event e, messages),
      record it {
        processor = w;
        analyses = analyses;
        ros_processed_events = it.ros_processed_events + 1;
      },
    )
  after_event messages rest it (done (raw e) w) =
      rest (record it { processor = w; ros_unsupported_events = it.ros_unsupported_events + 1 })
  after_event messages rest it (failed error w) = ok (
    some (failure error, messages),
    record it { processor = w; ros_processing_failures = it.ros_processing_failures + 1 },
  )
  after_event messages rest it (faulted x) = fault x

  unfoldable pub next : List Message → ProcessedEventsIter S → Next S
  unfolding after_event
  next [] it = do
    analyses ← analysis.finalize it.processor it.analyses
    ok (none, record it { analyses = analyses })
  next (boundary ∷ messages) it = next messages it
  next (skipped ∷ messages) it =
      next messages (record it { other_messages = it.other_messages + 1 })
  next (event none ∷ messages) it = next messages (record it { other_events = it.other_events + 1 })
  next (event (some (alive, e)) ∷ messages) it =
      after_event messages (λ it'. next messages it') it (process_raw_event alive e it.processor)

  -- The loop over the items: it ends with the trace, or at the first failure. It is on fuel: `none` where the
  -- fuel is used up before.
  unfoldable pub run : ℕ → List Message → ProcessedEventsIter S → Result (Option (Outcome S))
  unfolding next
  run zero messages it = ok none
  run (suc fuel) messages it = do
    n ← next messages it
    elim n.0 [
      | none ↦ ok (some (finished n.1))
      | some (processed_event e, left) ↦ run fuel left n.1
      | some (failure error, left) ↦ ok (some (stopped error left n.1))
    ]

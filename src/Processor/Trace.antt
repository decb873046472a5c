-- ===== src/Processor/Trace.antt =====
-- The states that the processor can reach: `ProcessedEventsIter::next` of src/main.rs hands it one
-- event after another, and an event that fails leaves the state that it had reached.
use ros2trace_analyzer.Common.{◌≡◌, Error}
use ros2trace_analyzer.Events.Raw
use ros2trace_analyzer.Events.Processed
use ros2trace_analyzer.Processor.State.{World, init}
use ros2trace_analyzer.Processor.Exec.{done, failed}
use ros2trace_analyzer.Processor.Exec.Keeps.{Keeps}
use ros2trace_analyzer.Processor.Callers.{Liveness}
use ros2trace_analyzer.Processor.Dispatch.{MaybeProcessed, process_raw_event}

pub data Reachable : World → Type 0 where
  start : Reachable init
  after_event :
      {w w' : World} (alive : Liveness) (e : Raw.FullEvent)
      {r : MaybeProcessed Processed.FullEvent Raw.FullEvent}
      → Reachable w
      → process_raw_event alive e w ≡ done r w'
      → Reachable w'
  after_failure :
      {w w' : World} (alive : Liveness) (e : Raw.FullEvent) {x : Error}
      → Reachable w
      → process_raw_event alive e w ≡ failed x w'
      → Reachable w'

-- What holds at first and is kept by every event holds in every reachable state.
module _ {P : World → Type 0}
    (keeps : (alive : Liveness) (e : Raw.FullEvent) → Keeps P (process_raw_event alive e))
    (first : P init) where
  pub Reachable-induction : {w : World} → Reachable w → P w
  Reachable-induction start = first
  Reachable-induction (after_event {w} alive e r eq) =
      rw eq at ((keeps alive e).at w (Reachable-induction r))
  Reachable-induction (after_failure {w} alive e r eq) =
      rw eq at ((keeps alive e).at w (Reachable-induction r))

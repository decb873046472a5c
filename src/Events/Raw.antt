-- ===== src/Events/Raw.antt =====
-- src/raw_events: the events as the trace has them.
pub mod Ros2
pub mod R2r
use ros2trace_analyzer.Model.PublicationMessage.{Time}
use ros2trace_analyzer.Events.Context.{Context}

pub data Event : Type 0 where
  ros2 : Ros2.Event → Event
  r2r : R2r.Event → Event

pub record FullEvent : Type 0 where
  pub context : Context
  pub time : Time
  pub event : Event

-- ===== src/Processor/Tests/Invariants.antt =====
-- The first event of a trace.
use ros2trace_analyzer.Common.{refl, pos}
use ros2trace_analyzer.Events.Raw
use ros2trace_analyzer.Processor.State.{World, init}
use ros2trace_analyzer.Processor.Dispatch
use ros2trace_analyzer.Processor.Dispatch.{process_raw_event}
use ros2trace_analyzer.Processor.Hosts
use ros2trace_analyzer.Processor.Trace.{Reachable, start, after_event}
use ros2trace_analyzer.Processor.Invariants.Objects.{ObjectsAreConsistent}
use ros2trace_analyzer.Processor.Invariants.Objects.Dispatch.{Reachable-ObjectsAreConsistent}
use ros2trace_analyzer.Processor.Tests.Data.{steps, after, context, all_alive, node_event}

abbrev first_event : Raw.FullEvent
first_event = record {
  context = context;
  time = pos 1;
  event = Raw.ros2 (Raw.Ros2.rcl_node_init node_event);
}

abbrev after_first : World
after_first = after (process_raw_event all_alive first_event init)

after_first-Reachable : Reachable after_first
unfolding steps Dispatch.process_raw_event Dispatch.process_inner Dispatch.process_raw_ros2_event
    Dispatch.dispatch_ros2 Dispatch.into_full_event Hosts.host_to_host_id Hosts.entry_or_insert
    Hosts.lookup
after_first-Reachable = after_event all_alive first_event start refl

Reachable-ObjectsAreConsistent_example : ObjectsAreConsistent after_first
Reachable-ObjectsAreConsistent_example = Reachable-ObjectsAreConsistent after_first-Reachable

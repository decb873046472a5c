-- ===== src/Display/Tests.antt =====
-- The text of a callback whose subscriber refers to it, and of the start of an instance of it.
use Prim.Native.Char.{Char}
use ros2trace_analyzer.Common.{Ref, true, false, [], ◌∷◌, ok, ◌≡◌, refl, pos}
use ros2trace_analyzer.Utils.Format
use ros2trace_analyzer.Utils.ArcWeak.{get_arc}
use ros2trace_analyzer.Model.Callback
use ros2trace_analyzer.Model.Callback.{Callback}
use ros2trace_analyzer.Events.Processed
use ros2trace_analyzer.Processor.State.{World, init}
use ros2trace_analyzer.Processor.Tests.Data.{steps, context, all_alive, with_running, one, listener}
use ros2trace_analyzer.Display
use ros2trace_analyzer.Display.{Environment, LockType, between, with_lock}
use ros2trace_analyzer.Display.Objects.{callback_text}
use ros2trace_analyzer.Display.Objects
use ros2trace_analyzer.Display.Summary.{callback_summary}
use ros2trace_analyzer.Display.Events.{full_event_text}
use ros2trace_analyzer.Display.Shows.{Shows}
use ros2trace_analyzer.Display.Deadlock.{CallersAreFree}
use ros2trace_analyzer.Display.Deadlock.Events.{full_event_text-Shows}
use ros2trace_analyzer.Display.Deadlock.Summary.{callback_summary-Shows}

abbrev env : Environment
env = record {
  time = λ t. "now";
  printable = λ (c : Char). true;
  node_alive = λ (r : Ref). true;
  alive = all_alive;
}

abbrev callback : Callback
callback = Callback.new_subscription 128 0 "robot"

-- The subscriber of the callback refers to the callback.
abbrev world : World
world = record init { callbacks = one callback; subscribers = one listener }

-- The subscriber is shown while the callback is locked; it does not show the callback again.
callback_text_of_subscriber :
    callback_text env world false callback ((LockType.callback, 0) ∷ [])
    ≡ ok
        "(handle=80, caller=Subscriber(topic=\"/chatter\", handles={rmw=3c, rcl=Unknown, rclcpp=Unknown}, queue_depth=Unknown, node=Unknown, callback=...), name=Unknown)"
unfolding steps callback_text Objects.subscriber_text Format.debug_text Format.hex with_lock between
    Objects.node_of_text Objects.callback_of_text Display.known_text Display.arc_mutex_text
    Display.arc_weak_mutex_text Display.upgraded_text get_arc Callback.new_subscription Callback.new
    Objects.handles_text Objects.caller_of_text Objects.known_debug Objects.node_and_callback
    Objects.known_hex Objects.known_decimal
callback_text_of_subscriber = refl

abbrev started : Processed.FullEvent
started = record {
  context = context;
  time = pos 8;
  event =
      Processed.ros2
        (Processed.Ros2.callback_start (record { is_intra_process = false; callback = 0 }));
}

full_event_text-Shows_example : Shows (full_event_text env with_running started [])
full_event_text-Shows_example = full_event_text-Shows env with_running started

abbrev callback_locked : CallersAreFree env world ((LockType.callback, 0) ∷ [])
callback_locked = record {
  subscriber_free = refl;
  service_free = refl;
  timer_free = refl;
  node_free = refl;
}

callback_summary-Shows_example :
    Shows (callback_summary env world callback ((LockType.callback, 0) ∷ []))
callback_summary-Shows_example =
    callback_summary-Shows env world ((LockType.callback, 0) ∷ []) callback_locked callback

-- ===== src/Display/Objects.antt =====
-- `Display` of the types of src/model/mod.rs, in src/model/display.rs. A display function has the text that it is
-- written in, and takes the locks in the order of its arguments. The flag is that of the alternate form, `{:#}`.
use Prim.Native.String.{◌++◌}
use ros2trace_analyzer.Common.{
  ℕ, zero, suc, ℤ, String, Ref, Bool, true, false, List, [], ◌∷◌, ok, take, drop,
}
use ros2trace_analyzer.Utils.Known.{Known, known, unknown, map}
use ros2trace_analyzer.Utils.ArcWeak.{ArcWeak}
use ros2trace_analyzer.Utils.Duration.{display_duration, display_large_duration}
use ros2trace_analyzer.Utils.Format.{decimal, decimal_ℤ, hex, hex_byte, debug_text}
use ros2trace_analyzer.Model.Name.{get_full_name}
use ros2trace_analyzer.Model.Gid.{RmwGid}
use ros2trace_analyzer.Model.Node.{Node}
use ros2trace_analyzer.Model.Publisher.{Publisher}
use ros2trace_analyzer.Model.Subscriber.{Subscriber}
use ros2trace_analyzer.Model.Service.{Service}
use ros2trace_analyzer.Model.Client.{Client}
use ros2trace_analyzer.Model.Timer.{Timer}
use ros2trace_analyzer.Model.Callback.{Callback, CallbackCaller}
use ros2trace_analyzer.Model.PublicationMessage.{Time}
use ros2trace_analyzer.Processor.State.{World}
use ros2trace_analyzer.Analysis.Base.{◌>>=◌}
use ros2trace_analyzer.Display.{
  Environment, LockType, Printer, text, between, known_text, arc_mutex_text, arc_weak_mutex_text,
  arc_weak_mutex_mapped_text,
}

-- `SUFFIX` of `DisplayDuration`.
unfoldable pub suffix : ℕ → String
suffix zero = "ns"
suffix (suc zero) = "μs"
suffix (suc (suc zero)) = "ms"
suffix (suc (suc (suc zero))) = "s"
suffix (suc (suc (suc (suc zero)))) = "min"
suffix (suc (suc (suc (suc (suc n))))) = "h"

unfoldable pub duration_text : ℤ → String
unfolding suffix
duration_text value =
    let (shown, unit) = display_duration value in decimal_ℤ shown ++ (" " ++ suffix unit)

unfoldable pub large_duration_text : ℕ → String
unfolding suffix
large_duration_text value =
    let (shown, unit) = display_large_duration value in decimal shown ++ (" " ++ suffix unit)

-- `LowerHex` of `Known`.
unfoldable pub known_hex : Known ℕ → String
known_hex (known value) = hex value
known_hex unknown = "Unknown"

unfoldable pub known_decimal : Known ℕ → String
known_decimal (known value) = decimal value
known_decimal unknown = "Unknown"

unfoldable pub known_duration : Known ℤ → String
unfolding duration_text
known_duration (known value) = duration_text value
known_duration unknown = "Unknown"

unfoldable pub hex_bytes : List ℕ → String
hex_bytes [] = ""
hex_bytes (b ∷ bs) = hex_byte b ++ hex_bytes bs

-- `Display` of `DdsGid`.
unfoldable pub dds_gid_text : List ℕ → String
unfolding hex_bytes
dds_gid_text gid = hex_bytes (take 12 gid) ++ ("-" ++ hex_bytes (drop 12 gid))

unfoldable pub rmw_gid_text : RmwGid → String
unfolding dds_gid_text hex_bytes
rmw_gid_text gid = dds_gid_text gid.gid ++ ("-" ++ hex_bytes gid.gid_suffix)

unfoldable pub handles_text : Known ℕ → Known ℕ → Known ℕ → String
unfolding known_hex
handles_text rmw rcl rclcpp =
    "handles={rmw="
    ++ (known_hex rmw
        ++ (", rcl=" ++ (known_hex rcl ++ (", rclcpp=" ++ (known_hex rclcpp ++ "}")))))

module _ (env : Environment) (w : World) where
  -- `DisplayDebug` of a text that may not be known.
  unfoldable pub known_debug : Known String → String
  known_debug (known s) = debug_text env.printable s
  known_debug unknown = "Unknown"

  unfoldable pub known_time : Known Time → String
  known_time (known t) = env.time t
  known_time unknown = "Unknown"

  unfoldable pub node_text : Node → Printer
  unfolding known_debug known_hex
  node_text n = text (
      "(name="
      ++ (known_debug (map get_full_name n.full_name)
          ++ (", handles={rmw="
              ++ (known_hex n.rmw_handle ++ (", rcl=" ++ (hex n.rcl_handle ++ "})"))))))

  -- A node behind `Known` and `ArcWeak`, unless it is skipped.
  unfoldable pub node_of_text : Bool → Known ArcWeak → Printer
  unfolding known_text node_text
  node_of_text skip =
      known_text (arc_weak_mutex_text env.node_alive LockType.node w.nodes node_text skip)

  unfoldable pub publisher_text : Bool → Publisher → Printer
  unfolding node_of_text handles_text known_debug known_decimal between
  publisher_text alternate p held =
      between
        ("(topic="
          ++ (known_debug p.topic_name
              ++ (", "
                  ++ (handles_text p.rmw_handle p.rcl_handle p.rclcpp_handle
                      ++ (", queue_depth=" ++ (known_decimal p.queue_depth ++ ", node="))))))
        ")" (node_of_text alternate p.node held)

  -- The alternate form of a callback does not show its caller.
  unfoldable pub callback_alternate_text : Callback → Printer
  unfolding known_debug
  callback_alternate_text c =
      text ("(handle=" ++ (hex c.handle ++ (", name=" ++ (known_debug c.name ++ ")"))))

  -- A callback behind `Known` and `Arc<Mutex>`, unless it is skipped.
  unfoldable pub callback_of_text : Bool → Known Ref → Printer
  unfolding known_text callback_alternate_text
  callback_of_text skip =
      known_text (arc_mutex_text LockType.callback w.callbacks callback_alternate_text skip)

  -- What a node and a callback show, behind the text in front of them.
  unfoldable pub node_and_callback : String → String → Bool → Known ArcWeak → Known Ref → Printer
  unfolding node_of_text callback_of_text
  node_and_callback before separator skip node callback held = do
    n ← node_of_text false node held
    c ← callback_of_text skip callback held
    ok (before ++ (n ++ (separator ++ (c ++ ")"))))

  unfoldable pub subscriber_text : Bool → Subscriber → Printer
  unfolding node_and_callback handles_text known_debug known_decimal
  subscriber_text alternate s held =
      node_and_callback
        ("(topic="
          ++ (known_debug s.topic_name
              ++ (", "
                  ++ (handles_text s.rmw_handle s.rcl_handle s.rclcpp_handle
                      ++ (", queue_depth=" ++ (known_decimal s.queue_depth ++ ", node="))))))
        ", callback=" alternate s.node s.callback held

  unfoldable pub service_text : Bool → Service → Printer
  unfolding node_and_callback handles_text known_debug
  service_text alternate s held =
      node_and_callback
        ("(service="
          ++ (known_debug s.name
              ++ (", "
                  ++ (handles_text s.rmw_handle (known s.rcl_handle) s.rclcpp_handle
                      ++ ", node="))))
        ", callback=" alternate s.node s.callback held

  unfoldable pub client_text : Bool → Client → Printer
  unfolding node_of_text known_debug known_hex between
  client_text alternate c held =
      between
        ("(service="
          ++ (known_debug c.service_name
              ++ (", handles={rmw="
                  ++ (known_hex c.rmw_handle ++ (", rcl=" ++ (hex c.rcl_handle ++ "}, node="))))))
        ")" (node_of_text alternate c.node held)

  unfoldable pub timer_text : Bool → Timer → Printer
  unfolding node_and_callback known_duration
  timer_text alternate t held =
      node_and_callback
        ("(period="
          ++ (known_duration t.period ++ (", rcl_handle=" ++ (decimal t.rcl_handle ++ ", node="))))
        " callback=" alternate t.node t.callback held

  -- `caller=` in the text of a callback: its caller in the alternate form.
  unfoldable pub caller_of_text : Known CallbackCaller → Printer
  unfolding between subscriber_text service_text timer_text
  caller_of_text (known (CallbackCaller.subscription s)) held = between "Subscriber" "" (
      arc_weak_mutex_text env.alive.subscriber LockType.subscriber w.subscribers
        (subscriber_text true) false s held)
  caller_of_text (known (CallbackCaller.service s)) held = between "Service" "" (
      arc_weak_mutex_text env.alive.service LockType.service w.services (service_text true) false s
        held)
  caller_of_text (known (CallbackCaller.timer t)) held =
      between "Timer" ""
        (arc_weak_mutex_text env.alive.timer LockType.timer w.timers (timer_text true) false t held)
  caller_of_text unknown held = ok "Unknown"

  unfoldable pub callback_text : Bool → Callback → Printer
  unfolding callback_alternate_text caller_of_text known_debug between
  callback_text true c held = callback_alternate_text c held
  callback_text false c held =
      between ("(handle=" ++ (hex c.handle ++ ", caller="))
        (", name=" ++ (known_debug c.name ++ ")")) (caller_of_text c.caller held)

  -- `Display` of `CallbackCaller`.
  unfoldable pub caller_text : CallbackCaller → Printer
  unfolding known_debug known_duration
  caller_text (CallbackCaller.subscription s) =
      arc_weak_mutex_mapped_text env.alive.subscriber LockType.subscriber w.subscribers
        (λ subscriber. text ("Subscriber(" ++ (known_debug subscriber.topic_name ++ ")"))) s
  caller_text (CallbackCaller.service s) =
      arc_weak_mutex_mapped_text env.alive.service LockType.service w.services
        (λ service. text ("Service(" ++ (known_debug service.name ++ ")"))) s
  caller_text (CallbackCaller.timer t) =
      arc_weak_mutex_mapped_text env.alive.timer LockType.timer w.timers
        (λ timer. text ("Timer(" ++ (known_duration timer.period ++ ")"))) t

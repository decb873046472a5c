-- ===== src/Display/Summary.antt =====
-- `DisplayCallbackSummary` of src/model/display.rs, `Callback::get_node` and `CallbackCaller::get_caller_as_string` of
-- src/model/mod.rs, and the functions that read an object through a weak reference.
use Prim.Native.String.{◌++◌}
use ros2trace_analyzer.Common.{String, Ref, Bool, Option, none, some, Result, ok}
use ros2trace_analyzer.Utils.Known.{Known, known, unknown, map, into_option}
use ros2trace_analyzer.Utils.ArcWeak.{ArcWeak, get_arc, downgrade_in_place}
use ros2trace_analyzer.Utils.WeakKnown.{WeakKnown, dropped, of_known}
use ros2trace_analyzer.Utils.WeakKnown
use ros2trace_analyzer.Utils.Format.{debug_text}
use ros2trace_analyzer.Model.Name.{get_full_name}
use ros2trace_analyzer.Model.Subscriber.{Subscriber}
use ros2trace_analyzer.Model.Service.{Service}
use ros2trace_analyzer.Model.Timer.{Timer}
use ros2trace_analyzer.Model.Callback.{Callback, CallbackCaller, CallbackType, callback_type}
use ros2trace_analyzer.Processor.State.{World, Heap}
use ros2trace_analyzer.Analysis.Base.{◌>>=◌, expect}
use ros2trace_analyzer.Display.{Environment, LockType, Held, Printer, with_lock}
use ros2trace_analyzer.Display.Objects.{known_debug, known_duration, duration_text}

-- The derived `Debug`.
unfoldable pub type_text : CallbackType → String
type_text CallbackType.subscription = "Subscription"
type_text CallbackType.service = "Service"
type_text CallbackType.timer = "Timer"

-- The node of a locked caller, where the caller could be upgraded.
unfoldable pub node_of_locked :
    {A : Type 0}
    → LockType
    → Heap A
    → (A → Known ArcWeak)
    → Option Ref
    → Held
    → Result (Option ArcWeak)
unfolding into_option
node_of_locked t h node none held = ok none
node_of_locked t h node (some r) held = with_lock t h r (λ a _. ok (into_option (node a))) held

-- `unwrap` of the upgraded caller, and what is shown of it.
unfoldable pub unwrapped_text :
    {A : Type 0} → LockType → Heap A → (A → String) → Option Ref → Printer
unwrapped_text t h show upgraded held = do
  r ← expect upgraded
  with_lock t h r (λ a _. ok (show a)) held

-- A weak reference: upgraded, locked and read, or dropped.
unfoldable pub read_weak :
    {A B : Type 0}
    → (Ref → Bool)
    → LockType
    → Heap A
    → (A → Known B)
    → ArcWeak
    → Held
    → Result (WeakKnown B)
unfolding of_known downgrade_in_place
read_weak alive t h value reference held = elim (get_arc alive (downgrade_in_place reference)) [
  | none ↦ ok dropped
  | some r ↦ with_lock t h r (λ a _. ok (of_known (value a))) held
]

module _ (env : Environment) (w : World) where
  unfoldable pub get_node_of_caller : CallbackCaller → Held → Result (Option ArcWeak)
  unfolding node_of_locked
  get_node_of_caller (CallbackCaller.subscription s) =
      node_of_locked LockType.subscriber w.subscribers (λ a. a.node)
        (get_arc env.alive.subscriber s)
  get_node_of_caller (CallbackCaller.service s) =
      node_of_locked LockType.service w.services (λ a. a.node) (get_arc env.alive.service s)
  get_node_of_caller (CallbackCaller.timer t) =
      node_of_locked LockType.timer w.timers (λ a. a.node) (get_arc env.alive.timer t)

  -- The name of the node, which may be dropped.
  unfoldable pub node_name_text : Option Ref → Printer
  unfolding known_debug
  node_name_text none held = ok (debug_text env.printable "DROPPED")
  node_name_text (some r) held =
      with_lock LockType.node w.nodes r
        (λ n _. ok (known_debug env w (map get_full_name n.full_name))) held

  unfoldable pub subscriber_summary : Subscriber → String
  unfolding known_debug
  subscriber_summary a = "Subscriber(" ++ (known_debug env w a.topic_name ++ ")")

  unfoldable pub service_summary : Service → String
  unfolding known_debug
  service_summary a = "Service(" ++ (known_debug env w a.name ++ ")")

  unfoldable pub timer_summary : Timer → String
  unfolding known_duration
  timer_summary a = "Timer(" ++ (known_duration a.period ++ ")")

  unfoldable pub caller_summary : CallbackCaller → Printer
  unfolding unwrapped_text subscriber_summary service_summary timer_summary
  caller_summary (CallbackCaller.subscription s) =
      unwrapped_text LockType.subscriber w.subscribers subscriber_summary
        (get_arc env.alive.subscriber s)
  caller_summary (CallbackCaller.service s) =
      unwrapped_text LockType.service w.services service_summary (get_arc env.alive.service s)
  caller_summary (CallbackCaller.timer t) =
      unwrapped_text LockType.timer w.timers timer_summary (get_arc env.alive.timer t)

  -- A caller, and its node where that was found.
  unfoldable pub caller_and_node : CallbackCaller → Option ArcWeak → Printer
  unfolding type_text callback_type node_name_text caller_summary
  caller_and_node caller none held = ok ("(" ++ (type_text (callback_type caller) ++ ")"))
  caller_and_node caller (some node) held = do
    name ← node_name_text (get_arc env.node_alive node) held
    c ← caller_summary caller held
    ok ("(node=" ++ (name ++ (", " ++ (c ++ ")"))))

  unfoldable pub summary_of_caller : Known CallbackCaller → Printer
  unfolding get_node_of_caller caller_and_node
  summary_of_caller unknown held = ok "(UNKNOWN)"
  summary_of_caller (known caller) held = do
    node ← get_node_of_caller caller held
    caller_and_node caller node held

  unfoldable pub callback_summary : Callback → Printer
  unfolding summary_of_caller
  callback_summary c = summary_of_caller c.caller

  unfoldable pub get_node_name_from_weak : ArcWeak → Held → Result (WeakKnown String)
  unfolding read_weak
  get_node_name_from_weak =
      read_weak env.node_alive LockType.node w.nodes (λ n. map get_full_name n.full_name)

  unfoldable pub get_caller_as_string : CallbackCaller → Held → Result (WeakKnown String)
  unfolding read_weak duration_text
  get_caller_as_string (CallbackCaller.subscription s) held =
      read_weak env.alive.subscriber LockType.subscriber w.subscribers (λ a. a.topic_name) s held
  get_caller_as_string (CallbackCaller.service s) held =
      read_weak env.alive.service LockType.service w.services (λ a. a.name) s held
  get_caller_as_string (CallbackCaller.timer t) held = do
    period ← read_weak env.alive.timer LockType.timer w.timers (λ a. a.period) t held
    ok (WeakKnown.map duration_text period)

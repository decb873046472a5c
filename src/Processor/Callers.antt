-- ===== src/Processor/Callers.antt =====
-- `CallbackCaller::is_removed` of src/model/mod.rs, and the registration of a callback, which the
-- three handlers `process_rclcpp_*_callback_added` of src/processor/ros2.rs share.
pub mod Registration
use ros2trace_analyzer.Common.{
  ℕ, Ref, Bool, true, false, Option, none, some, Object, already_exists,
}
use ros2trace_analyzer.Utils.ArcWeak.{get_arc}
use ros2trace_analyzer.Utils.Known.{into_option}
use ros2trace_analyzer.Model.Callback.{Callback, CallbackCaller}
use ros2trace_analyzer.Processor.Id.{ContextId, into_id}
use ros2trace_analyzer.Processor.Exec.{M, ◌>>=◌, ◌>>◌, pure, raise, insert, alloc, load}
use ros2trace_analyzer.Processor.Fields

-- Which objects a weak reference can still be upgraded to, when an event is handled.
pub record Liveness : Type 0 where
  pub subscriber : Ref → Bool
  pub service : Ref → Bool
  pub timer : Ref → Bool

module _ (alive : Liveness) where
  unfoldable pub subscriber_removed : Option Ref → M (Option Bool)
  subscriber_removed none = pure none
  subscriber_removed (some r) = do s ← load Fields.subscribers r; pure (some s.removed)

  unfoldable pub service_removed : Option Ref → M (Option Bool)
  service_removed none = pure none
  service_removed (some r) = do s ← load Fields.services r; pure (some s.removed)

  unfoldable pub timer_removed : Option Ref → M (Option Bool)
  timer_removed none = pure none
  timer_removed (some r) = do t ← load Fields.timers r; pure (some t.removed)

  -- `none`: the caller cannot be reached any more.
  unfoldable pub is_removed : CallbackCaller → M (Option Bool)
  is_removed (CallbackCaller.subscription sub) = subscriber_removed (get_arc alive.subscriber sub)
  is_removed (CallbackCaller.service service) = service_removed (get_arc alive.service service)
  is_removed (CallbackCaller.timer timer) = timer_removed (get_arc alive.timer timer)

  -- `.get_caller().and_then(CallbackCaller::is_removed)`.
  unfoldable pub caller_removed : Option CallbackCaller → M (Option Bool)
  caller_removed none = pure none
  caller_removed (some caller) = is_removed caller

  -- `.unwrap_or(true)`, and the two results.
  unfoldable pub keep_unless_removed : Ref → Option Bool → Option Ref
  keep_unless_removed old none = none
  keep_unless_removed old (some true) = none
  keep_unless_removed old (some false) = some old

  unfoldable pub filter_out_removed_callers : Ref → M (Option Ref)
  filter_out_removed_callers old_arc = do
    old ← load Fields.callbacks old_arc
    removed ← caller_removed (into_option old.caller)
    pure (keep_unless_removed old_arc removed)

  unfoldable pub filter_old : Option Ref → M (Option Ref)
  filter_old none = pure none
  filter_old (some old) = filter_out_removed_callers old

-- `AlreadyExists::with_id(event.callback, &callback_arc, old)`. The parameters of `with_id` are
-- `id`, `old_object` and `new_object`, in this order.
unfoldable pub reject_old : ℕ → Ref → Option Ref → M (Unit {0})
reject_old handle callback_arc none = pure tt
reject_old handle callback_arc (some old) = raise (
    already_exists (record {
      key = handle;
      key_variable = "id";
      new_object = Object.callback old;
      old_object = Object.callback callback_arc;
    }))

-- `callbacks_by_id.insert(..).and_then(..).map_or(..)?` for a new callback.
unfoldable pub register_callback : Liveness → ℕ → ContextId → Callback → M Ref
register_callback alive handle context_id callback = do
  callback_arc ← alloc Fields.callbacks callback
  old ← insert Fields.callbacks_by_id (into_id handle context_id) callback_arc
  kept ← filter_old alive old
  reject_old handle callback_arc kept
  pure callback_arc

-- ===== src/Processor/Callbacks/Lifecycle.antt =====
-- The life of a callback instance: `process_callback_start` and `process_callback_end` of
-- src/processor/ros2.rs.
use ros2trace_analyzer.Common.{◌≡◌, Ref, none, some, panic, arith}
use ros2trace_analyzer.Utils.Known.{known, unknown, is_unknown, into_option}
use ros2trace_analyzer.Model.PublicationMessage.{Time}
use ros2trace_analyzer.Model.Callback
use ros2trace_analyzer.Model.CallbackInstance.{end_instance}
use ros2trace_analyzer.Events.Raw.Ros2.{CallbackStart, CallbackEnd}
use ros2trace_analyzer.Processor.Id.{ContextId, into_id}
use ros2trace_analyzer.Processor.State.{World}
use ros2trace_analyzer.Processor.Exec.{done, faulted, actions, Shows, Returns}
use ros2trace_analyzer.Processor.Callers.{Liveness}
use ros2trace_analyzer.Processor.Callbacks.{
  get_callback_by_id, trigger_of, assert_idle, new_instance, process_callback_start,
  process_callback_end,
}

-- When `process_callback_start` returns, the handle of the event leads to a callback whose running
-- instance is the one that it returns, which belongs to this callback, started at the time of the
-- event and has not ended.
pub callback_start-starts :
    (alive : Liveness) (e : CallbackStart) (t : Time) (c : ContextId) (w : World) {i : Ref}
    {w' : World}
    → process_callback_start alive e t c w ≡ done i w'
    → Shows (w'.callbacks_by_id (into_id e.callback c)) (λ r.
      Shows (w'.callbacks.cell r) (λ callback. callback.running_instance ≡ some i)
      × Shows (w'.instances.cell i) (λ instance.
        (instance.callback ≡ r) × (instance.start_time ≡ t) × (instance.end_time ≡ unknown)))
unfolding process_callback_start get_callback_by_id new_instance assert_idle trigger_of actions
    into_option
callback_start-starts alive e t c w h = ground arith

-- A callback that is started again before it ended panics.
pub callback_start-twice :
    (alive alive' : Liveness) (e e' : CallbackStart) (t t' : Time) (c : ContextId) (w : World)
    {i : Ref} {w' : World}
    → process_callback_start alive e t c w ≡ done i w'
    → e'.callback ≡ e.callback
    → process_callback_start alive' e' t' c w' ≡ faulted panic
unfolding process_callback_start get_callback_by_id new_instance assert_idle actions
callback_start-twice alive alive' e e' t t' c w h same =
    ground (arith, callback_start-starts alive e t c w h)

-- The end of a callback that was started returns the instance that the start returned, with the
-- times of both events, and leaves the callback idle.
pub callback_start-end :
    (alive : Liveness) (e : CallbackStart) (e' : CallbackEnd) (t t' : Time) (c : ContextId)
    (w : World) {i : Ref} {w' : World}
    → process_callback_start alive e t c w ≡ done i w'
    → e'.callback ≡ e.callback
    → Returns (process_callback_end e' t' c w') (λ ended w''.
      (ended ≡ i)
      × Shows
          (w''.instances.cell i)
          (λ instance. (instance.start_time ≡ t) × (instance.end_time ≡ known t'))
      × Shows
          (w''.callbacks_by_id (into_id e.callback c))
          (λ r. Shows (w''.callbacks.cell r) (λ callback. callback.running_instance ≡ none)))
unfolding process_callback_end get_callback_by_id actions Callback.take_running_instance
    end_instance is_unknown
callback_start-end alive e e' t t' c w h same =
    ground (arith, callback_start-starts alive e t c w h)

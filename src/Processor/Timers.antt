-- ===== src/Processor/Timers.antt =====
-- The handlers of src/processor/ros2.rs for timers.
use ros2trace_analyzer.Common.{Ref, Bool, true, false, Object, ObjectType}
use ros2trace_analyzer.Model.Node
use ros2trace_analyzer.Model.Timer
use ros2trace_analyzer.Model.Timer.{Timer}
use ros2trace_analyzer.Model.Callback
use ros2trace_analyzer.Events.Context.{Context}
use ros2trace_analyzer.Events.Raw.Ros2.{RclTimerInit, RclcppTimerCallbackAdded, RclcppTimerLinkNode}
use ros2trace_analyzer.Processor.Id.{HandleId, ContextId, into_id}
use ros2trace_analyzer.Processor.Exec.{
  M, ◌>>=◌, ◌>>◌, pure, expect, insert, alloc, modify, call, attempt, entry, get_or_err,
}
use ros2trace_analyzer.Processor.Callers.{Liveness, register_callback}
use ros2trace_analyzer.Processor.Subscriptions.{dependent_node}
use ros2trace_analyzer.Processor.Fields

unfoldable pub replace_timer : RclTimerInit → ContextId → Ref → Bool → M Ref
replace_timer event context_id timer_arc true = pure timer_arc
replace_timer event context_id timer_arc false = do
  modify Fields.timers timer_arc Timer.mark_removed
  timer ← expect (Timer.rcl_init event.period (Timer.new event.timer_handle))
  new_arc ← alloc Fields.timers timer
  insert Fields.timers_by_rcl (into_id event.timer_handle context_id) new_arc
  pure new_arc

unfoldable pub process_rcl_timer_init : RclTimerInit → ContextId → M Ref
process_rcl_timer_init event context_id = do
  timer_arc ←
      entry Fields.timers_by_rcl Fields.timers (into_id event.timer_handle context_id)
        (pure (Timer.new event.timer_handle))
  initialized ← attempt Fields.timers timer_arc (Timer.rcl_init event.period)
  replace_timer event context_id timer_arc initialized

unfoldable pub get_timer_by_rcl_handle : HandleId → M Ref
get_timer_by_rcl_handle id = get_or_err Fields.timers_by_rcl id "rcl_handle" ObjectType.timer

unfoldable pub process_rclcpp_timer_callback_added :
    Liveness → RclcppTimerCallbackAdded → ContextId → Context → M Ref
process_rclcpp_timer_callback_added alive event context_id context = do
  timer_arc ← get_timer_by_rcl_handle (into_id event.timer_handle context_id)
  callback_arc ←
      register_callback alive event.callback context_id
        (Callback.new_timer event.callback timer_arc context.hostname)
  call Fields.timers timer_arc (Timer.set_callback callback_arc)
  pure callback_arc

unfoldable pub process_rclcpp_timer_link_node : RclcppTimerLinkNode → ContextId → M Ref
process_rclcpp_timer_link_node event context_id = do
  timer_arc ← get_timer_by_rcl_handle (into_id event.timer_handle context_id)
  node_arc ← dependent_node event.node_handle context_id (Object.timer timer_arc)
  call Fields.timers timer_arc (Timer.link_node node_arc)
  modify Fields.nodes node_arc (Node.add_timer timer_arc)
  pure timer_arc

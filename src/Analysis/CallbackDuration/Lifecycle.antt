-- ===== src/Analysis/CallbackDuration/Lifecycle.antt =====
-- The execution of a callback as src/analysis/callback_duration.rs records it, from its start to its end.
use ros2trace_analyzer.Common.{
  ◌-ℤ◌, is_i64, leb_ℤ, Ref, true, false, List, [], ◌∷◌, ◌++◌, some, ok, ◌≡◌, refl, ◌==◌,
  if◌then◌else◌, arith,
}
use ros2trace_analyzer.Utils.Known.{known, into_option}
use ros2trace_analyzer.Model.PublicationMessage.{Time}
use ros2trace_analyzer.Model.CallbackInstance.{CallbackInstance}
use ros2trace_analyzer.Events.Context.{Context}
use ros2trace_analyzer.Processor.State.{World}
use ros2trace_analyzer.Analysis.Base.{lock-some}
use ros2trace_analyzer.Analysis.Table.{contains, add, delete, push, ref_key}
use ros2trace_analyzer.Analysis.Table.Laws.{series, series-push, contains-add, contains-delete}
use ros2trace_analyzer.Analysis.CallbackDuration.{
  CallbackDuration, ExecutionData, start_callback, end_callback, end_started, calculate_duration,
  duration_between,
}

-- What is recorded of an instance that ended.
abbrev pub execution : CallbackInstance → Time → Context → ExecutionData
execution i end_time c = record {
  start_time = i.start_time;
  duration = end_time -ℤ i.start_time;
  tid = c.vtid;
  cpuid = c.cpu_id;
}

was_started : (callback : Ref) (s : List Ref) → contains callback (add callback s) ≡ true
was_started callback s = ground (arith, contains-add callback callback s)

abbrev ended_state : Ref → CallbackInstance → Time → Context → CallbackDuration → CallbackDuration
ended_state callback i end_time c s = record s {
  execution_data = push i.callback (execution i end_time c) s.execution_data;
  started_callbacks = delete callback (add callback s.started_callbacks);
}

calculate_duration-some :
    (i : CallbackInstance) (end_time : Time)
    → i.end_time ≡ known end_time
    → leb_ℤ i.start_time end_time ≡ true
    → is_i64 (end_time -ℤ i.start_time) ≡ true
    → calculate_duration i ≡ ok (some (end_time -ℤ i.start_time))
unfolding calculate_duration duration_between into_option
calculate_duration-some i end_time ended ordered fits = rw ended (rw (ordered, fits) refl)

-- A callback that was started and then ends, at a time that is not before its start and fits, is added to the
-- executions of its callback, and is not started any more; nothing else changes.
pub start_callback-end_callback :
    (w : World) (callback : Ref) (i : CallbackInstance) (end_time : Time) (c : Context)
    (s : CallbackDuration)
    → w.instances.cell callback ≡ some i
    → i.end_time ≡ known end_time
    → leb_ℤ i.start_time end_time ≡ true
    → is_i64 (end_time -ℤ i.start_time) ≡ true
    → (s' : CallbackDuration) × (end_callback w callback c (start_callback callback s) ≡ ok s')
      × ((r : Ref)
          → series r s'.execution_data ≡ (
              if i.callback == r
              then series r s.execution_data ++ execution i end_time c ∷ []
              else series r s.execution_data))
      × ((r : Ref)
          → contains r s'.started_callbacks
            ≡ (if callback == r then false else contains r s.started_callbacks))
      × (s'.not_ended_callbacks ≡ s.not_ended_callbacks)
unfolding start_callback end_callback end_started calculate_duration duration_between into_option
start_callback-end_callback w callback i end_time c s found ended ordered fits = (
  ended_state callback i end_time c s,
  rw (
    was_started callback s.started_callbacks,
    end_started,
    lock-some w.instances callback found,
    calculate_duration-some i end_time ended ordered fits,
  ),
  (λ r. series-push r i.callback (execution i end_time c) s.execution_data),
  (λ r. ground (
    arith,
    contains-delete r callback (add callback s.started_callbacks),
    contains-add r callback s.started_callbacks,
  )),
  refl,
)

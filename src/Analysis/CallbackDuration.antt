-- ===== src/Analysis/CallbackDuration.antt =====
-- src/analysis/callback_duration.rs: how long each execution of a callback took, and the times between its
-- starts.
pub mod Lifecycle
pub mod Arrivals
use ros2trace_analyzer.Common.{
  ℕ, ℤ, leb_ℤ, Ref, Bool, true, false, List, [], ◌∷◌, Option, none, some, Result, ok, err, fault,
  panic, map,
}
use ros2trace_analyzer.Utils.Known.{into_option}
use ros2trace_analyzer.Model.PublicationMessage.{Time}
use ros2trace_analyzer.Model.CallbackInstance.{CallbackInstance}
use ros2trace_analyzer.Events.Context.{Context}
use ros2trace_analyzer.Events.Processed
use ros2trace_analyzer.Processor.State.{World}
use ros2trace_analyzer.Analysis.Base.{◌>>=◌, ◌>>◌, assert, expect, lock, sub_times, is_empty}
use ros2trace_analyzer.Analysis.Table.{Table, get, push, contains, add, delete, ref_key}

pub record ExecutionData : Type 0 where
  pub start_time : Time
  pub duration : ℤ
  pub tid : ℕ
  pub cpuid : ℕ

pub record CallbackDuration : Type 0 where
  pub execution_data : Table Ref (List ExecutionData)
  pub started_callbacks : List Ref
  pub not_ended_callbacks : List Ref

abbrev pub new : CallbackDuration
new = record { execution_data = []; started_callbacks = []; not_ended_callbacks = [] }

-- The `?` on an end time that is not known is the answer `none`.
unfoldable pub duration_between : Time → Option Time → Result (Option ℤ)
duration_between start_time none = ok none
duration_between start_time (some end_time) = do
  assert (leb_ℤ start_time end_time)
  duration ← sub_times end_time start_time
  ok (some duration)

unfoldable pub calculate_duration : CallbackInstance → Result (Option ℤ)
unfolding duration_between into_option
calculate_duration callback = duration_between callback.start_time (into_option callback.end_time)

unfoldable pub start_callback : Ref → CallbackDuration → CallbackDuration
start_callback callback s = record s { started_callbacks = add callback s.started_callbacks }

unfoldable pub end_started :
    World → Ref → Context → CallbackDuration → Bool → Result CallbackDuration
unfolding calculate_duration
end_started w callback context s false = fault panic
end_started w callback context s true = do
  callback_instance ← lock w.instances callback
  known_duration ← calculate_duration callback_instance
  duration ← expect known_duration
  ok (record s {
    started_callbacks = delete callback s.started_callbacks;
    execution_data =
        push callback_instance.callback
          (record {
            start_time = callback_instance.start_time;
            duration = duration;
            tid = context.vtid;
            cpuid = context.cpu_id;
          })
          s.execution_data;
  })

unfoldable pub end_callback : World → Ref → Context → CallbackDuration → Result CallbackDuration
unfolding end_started
end_callback w callback context s =
    end_started w callback context s (contains callback s.started_callbacks)

-- A callback that was not ended has no duration: `unreachable!` otherwise.
unfoldable pub check_not_ended : Option ℤ → Result (Unit {0})
check_not_ended none = ok tt
check_not_ended (some duration) = fault panic

unfoldable pub drain_started : World → List Ref → Result (List Ref)
unfolding calculate_duration check_not_ended
drain_started w [] = ok []
drain_started w (callback ∷ rest) = do
  callback_instance ← lock w.instances callback
  duration ← calculate_duration callback_instance
  check_not_ended duration
  drained ← drain_started w rest
  ok (callback ∷ drained)

unfoldable pub end_remaining_callbacks : World → CallbackDuration → Result CallbackDuration
unfolding drain_started
end_remaining_callbacks w s = do
  assert (is_empty s.not_ended_callbacks)
  not_ended ← drain_started w s.started_callbacks
  ok (record s { started_callbacks = []; not_ended_callbacks = not_ended })

unfoldable pub process_event :
    World → Processed.FullEvent → CallbackDuration → Result CallbackDuration
process_event w full_event s = elim full_event.event [
  | Processed.ros2 (Processed.Ros2.callback_start event) ↦ ok (start_callback event.callback s)
  | Processed.ros2 (Processed.Ros2.callback_end event) ↦
      end_callback w event.callback full_event.context s
  | _ ↦ ok s
]

abbrev pub finalize : World → CallbackDuration → Result CallbackDuration
finalize = end_remaining_callbacks

unfoldable pub get_durations_for_callback : Ref → CallbackDuration → Option (List ℤ)
get_durations_for_callback callback s = elim (get callback s.execution_data) [
  | none ↦ none
  | some executions ↦ some (map (λ e. e.duration) executions)
]

-- `windows(2)`: the times between an execution and the next ones.
unfoldable pub times_between : ExecutionData → List ExecutionData → Result (List ℤ)
times_between first [] = ok []
times_between first (second ∷ rest) = do
  assert (leb_ℤ first.start_time second.start_time)
  duration ← sub_times second.start_time first.start_time
  later ← times_between second rest
  ok (duration ∷ later)

unfoldable pub some_times : Result (List ℤ) → Result (Option (List ℤ))
some_times times = do ts ← times; ok (some ts)

-- Fewer than two executions have no time between them.
unfoldable pub get_inter_arrival_time_inner : List ExecutionData → Result (Option (List ℤ))
unfolding times_between some_times
get_inter_arrival_time_inner [] = ok none
get_inter_arrival_time_inner (first ∷ []) = ok none
get_inter_arrival_time_inner (first ∷ second ∷ rest) =
    some_times (times_between first (second ∷ rest))

unfoldable pub get_inter_arrival_time : Ref → CallbackDuration → Result (Option (List ℤ))
unfolding get_inter_arrival_time_inner
get_inter_arrival_time callback s = elim (get callback s.execution_data) [
  | none ↦ ok none
  | some start_times ↦ get_inter_arrival_time_inner start_times
]

-- ===== src/Analysis/Tests/Series.antt =====
-- Durations and latencies, on small states.
use ros2trace_analyzer.Common.{
  ◌+◌, ℤ, pos, ◌-ℤ◌, is_i64, Ref, false, [], ◌∷◌, ◌++◌, some, ok, ◌≡◌, ◌↔◌, refl, ◌==◌,
  if◌then◌else◌,
}
use ros2trace_analyzer.Utils.Known.{into_option}
use ros2trace_analyzer.Model.PublicationMessage.{get_publication_time}
use ros2trace_analyzer.Model.SubscriptionMessage.{get_receive_time, get_publication_message}
use ros2trace_analyzer.Analysis.Table.{
  contains, ref_key, get, insert, push, update, pair_key, option_key,
}
use ros2trace_analyzer.Analysis.Table.Laws.{series, total}
use ros2trace_analyzer.Analysis.CallbackDuration
use ros2trace_analyzer.Analysis.CallbackDuration.{
  CallbackDuration, ExecutionData, start_callback, end_callback, times_between,
}
use ros2trace_analyzer.Analysis.CallbackDuration.Lifecycle.{execution, start_callback-end_callback}
use ros2trace_analyzer.Analysis.CallbackDuration.Arrivals.{reached, AreTimes, times_between-reached}
use ros2trace_analyzer.Analysis.MessageLatency
use ros2trace_analyzer.Analysis.MessageLatency.{MessageLatency, remove_remaining_messages}
use ros2trace_analyzer.Analysis.MessageLatency.Totals.{
  with_subscriber, remove_remaining_messages-total,
}
use ros2trace_analyzer.Analysis.Tests.Data.{world, context, timer_instance}

start_callback-end_callback_example :
    (s' : CallbackDuration) × (end_callback world 0 context (start_callback 0 CallbackDuration.new)
      ≡ ok s')
    × ((r : Ref)
        → series r s'.execution_data ≡ (
            if 1 == r
            then series {V = ExecutionData} r [] ++ execution timer_instance (pos 14) context ∷ []
            else series r []))
    × ((r : Ref) → contains r s'.started_callbacks ≡ (if 0 == r then false else contains r []))
    × (s'.not_ended_callbacks ≡ [])
unfolding is_i64 ◌-ℤ◌
start_callback-end_callback_example =
    start_callback-end_callback world 0 timer_instance (pos 14) context CallbackDuration.new refl
      refl refl refl

abbrev started_at : ℤ → ExecutionData
started_at t = record { start_time = t; duration = pos 1; tid = 8; cpuid = 1 }

times_between-reached_example :
    (times_between (started_at (pos 3)) (started_at (pos 8) ∷ started_at (pos 9) ∷ [])
      ≡ ok (pos 5 ∷ pos 1 ∷ []))
    ↔ (reached (pos 3) (pos 5 ∷ pos 1 ∷ []) ≡ pos 8 ∷ pos 9 ∷ []) × AreTimes (pos 5 ∷ pos 1 ∷ [])
times_between-reached_example =
    times_between-reached (started_at (pos 3)) (started_at (pos 8) ∷ started_at (pos 9) ∷ [])
      (pos 5 ∷ pos 1 ∷ [])

two_times :
    times_between (started_at (pos 3)) (started_at (pos 8) ∷ started_at (pos 9) ∷ [])
    ≡ ok (pos 5 ∷ pos 1 ∷ [])
unfolding times_between is_i64 ◌-ℤ◌
two_times = refl

abbrev one_left : MessageLatency
one_left = record { messages = 0 ∷ []; latencies = [] }

abbrev accounted : MessageLatency
accounted = record { messages = []; latencies = ((0, some 0), pos 7 ∷ []) ∷ [] }

remove_remaining_messages-total_example :
    (accounted.messages ≡ [])
    × (total accounted.latencies
        ≡ total one_left.latencies + with_subscriber world one_left.messages)
unfolding remove_remaining_messages MessageLatency.account_all MessageLatency.account
    MessageLatency.calculate_latency_and_get_publisher MessageLatency.send_time_and_publisher
    MessageLatency.latency_of MessageLatency.record_latency get insert push update into_option
    is_i64 ◌-ℤ◌ get_receive_time get_publication_message get_publication_time
remove_remaining_messages-total_example =
    remove_remaining_messages-total world one_left accounted refl

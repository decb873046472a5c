-- ===== src/Analysis/TakeToCallbackLatency.antt =====
-- src/analysis/message_take_to_callback_execution_latency.rs: how long a message that was taken waited for
-- the start of its callback.
use ros2trace_analyzer.Common.{ℤ, Ref, List, [], Result, ok}
use ros2trace_analyzer.Model.SubscriptionMessage.{get_receive_time}
use ros2trace_analyzer.Model.CallbackInstance.{
  CallbackInstance, CallbackTrigger, subscription_message, service, timer,
}
use ros2trace_analyzer.Events.Processed
use ros2trace_analyzer.Processor.State.{World}
use ros2trace_analyzer.Analysis.Base.{◌>>=◌, expect, lock, sub_times}
use ros2trace_analyzer.Analysis.Table.{Table, push, ref_key}

pub record TakeToCallbackLatency : Type 0 where
  pub latencies : Table Ref (List ℤ)

abbrev pub initialize : TakeToCallbackLatency → TakeToCallbackLatency
initialize s = record s { latencies = [] }

-- The match on the trigger of the instance. Other triggers are ignored.
unfoldable pub process_trigger :
    World
    → CallbackInstance
    → CallbackTrigger
    → TakeToCallbackLatency
    → Result TakeToCallbackLatency
process_trigger w instance (subscription_message msg) s = do
  message ← lock w.subscriptions msg
  receive_time ← expect (get_receive_time message)
  latency ← sub_times instance.start_time receive_time
  ok (record s { latencies = push instance.callback latency s.latencies })
process_trigger w instance (service r) s = ok s
process_trigger w instance (timer r) s = ok s

unfoldable pub process_callback_start :
    World → Ref → TakeToCallbackLatency → Result TakeToCallbackLatency
unfolding process_trigger
process_callback_start w callback s = do
  callback_instance ← lock w.instances callback
  process_trigger w callback_instance callback_instance.trigger s

unfoldable pub process_event :
    World → Processed.FullEvent → TakeToCallbackLatency → Result TakeToCallbackLatency
process_event w full_event s = elim full_event.event [
  | Processed.ros2 (Processed.Ros2.callback_start event) ↦ process_callback_start w event.callback s
  | _ ↦ ok s
]

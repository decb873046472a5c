-- ===== src/Model/CallbackInstance.antt =====
-- `CallbackTrigger` and `CallbackInstance` of src/model/mod.rs. `CallbackInstance::new` touches the
-- callback and its subscriber too, and is `Processor.Callbacks.new_instance`.
use ros2trace_analyzer.Common.{Ref, Result, ok, fault, panic, if◌then◌else◌}
use ros2trace_analyzer.Utils.Known.{Known, known, is_unknown}
use ros2trace_analyzer.Model.PublicationMessage.{Time}

pub data CallbackTrigger : Type 0 where
  subscription_message : Ref → CallbackTrigger
  service : Ref → CallbackTrigger
  timer : Ref → CallbackTrigger

pub record CallbackInstance : Type 0 where
  pub start_time : Time
  pub end_time : Known Time
  pub callback : Ref
  pub trigger : CallbackTrigger

unfoldable pub end_instance : Time → CallbackInstance → Result CallbackInstance
unfolding is_unknown
end_instance time i =
    if is_unknown i.end_time then ok (record i { end_time = known time }) else fault panic

-- ===== src/Model/SpinInstance.antt =====
-- `SpinInstance` of src/model/mod.rs.
pub mod Consistency
use ros2trace_analyzer.Common.{
  ℕ, Ref, Bool, true, false, not, ◌&&◌, Result, ok, fault, panic, if◌then◌else◌,
}
use ros2trace_analyzer.Utils.ArcWeak.{ArcWeak, weak}
use ros2trace_analyzer.Utils.Known.{Known, known, unknown, is_unknown, unwrap_or}
use ros2trace_analyzer.Model.PublicationMessage.{Time}

-- `std::time::Duration`, in nanoseconds.
abbrev pub Duration : Type 0
Duration = ℕ

pub record SpinInstance : Type 0 where
  pub start_time : Time
  pub wake_time : Known Time
  pub end_time : Known Time
  pub timeout : Duration
  pub timeouted : Known Bool
  pub node : ArcWeak

unfoldable pub new : Ref → Time → Duration → SpinInstance
new node start_time timeout = record {
  start_time = start_time;
  wake_time = unknown;
  end_time = unknown;
  timeout = timeout;
  timeouted = unknown;
  node = weak node;
}

unfoldable pub set_wake_time : Time → SpinInstance → Result SpinInstance
unfolding is_unknown
set_wake_time time s =
    if is_unknown s.wake_time
    then ok (record s { timeouted = known false; wake_time = known time })
    else fault panic

unfoldable pub set_end_time : Time → SpinInstance → Result SpinInstance
unfolding is_unknown unwrap_or
set_end_time time s =
    if is_unknown s.end_time && not (unwrap_or s.timeouted false)
    then ok (record s { timeouted = known false; end_time = known time })
    else fault panic

unfoldable pub set_timeouted_on : Time → SpinInstance → Result SpinInstance
unfolding is_unknown
set_timeouted_on wake_time s =
    if is_unknown s.timeouted
    then ok (record s { timeouted = known true; wake_time = known wake_time })
    else fault panic

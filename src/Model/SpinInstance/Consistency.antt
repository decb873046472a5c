-- ===== src/Model/SpinInstance/Consistency.antt =====
-- What holds of every `SpinInstance` that the processor builds, and the methods that keep it.
use ros2trace_analyzer.Common.{Ref, ◌≡◌, true, false, ◌&&◌, ok, arith}
use ros2trace_analyzer.Utils.Known.{is_unknown, unwrap_or}
use ros2trace_analyzer.Model.PublicationMessage.{Time}
use ros2trace_analyzer.Model.SpinInstance.{
  SpinInstance, Duration, new, set_wake_time, set_end_time, set_timeouted_on,
}

-- Whether the spin timed out is known as soon as it has woken or ended, and a spin that timed out
-- has woken and not ended.
pub record IsConsistent (s : SpinInstance) : Type 0 where
  pub decided : is_unknown s.timeouted ≡ (is_unknown s.wake_time && is_unknown s.end_time)
  pub woken : unwrap_or s.timeouted false ≡ true → is_unknown s.wake_time ≡ false
  pub open_end : unwrap_or s.timeouted false ≡ true → is_unknown s.end_time ≡ true

pub new-IsConsistent : (r : Ref) (t : Time) (d : Duration) → IsConsistent (new r t d)
unfolding new is_unknown unwrap_or
new-IsConsistent r t d = ground arith

pub set_wake_time-IsConsistent :
    (t : Time) (s s' : SpinInstance) → IsConsistent s → set_wake_time t s ≡ ok s' → IsConsistent s'
unfolding set_wake_time is_unknown unwrap_or
set_wake_time-IsConsistent t s s' c e = ground arith

pub set_end_time-IsConsistent :
    (t : Time) (s s' : SpinInstance) → IsConsistent s → set_end_time t s ≡ ok s' → IsConsistent s'
unfolding set_end_time is_unknown unwrap_or
set_end_time-IsConsistent t s s' c e = ground arith

pub set_timeouted_on-IsConsistent :
    (t : Time) (s s' : SpinInstance)
    → IsConsistent s
    → set_timeouted_on t s ≡ ok s'
    → IsConsistent s'
unfolding set_timeouted_on is_unknown unwrap_or
set_timeouted_on-IsConsistent t s s' c e = ground arith

pub ruleset consistency = (
  new-IsConsistent, set_wake_time-IsConsistent, set_end_time-IsConsistent,
  set_timeouted_on-IsConsistent,
)

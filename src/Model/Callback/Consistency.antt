-- ===== src/Model/Callback/Consistency.antt =====
-- What holds of every `Callback` that the processor builds, and the methods that keep it.
use ros2trace_analyzer.Common.{ℕ, String, Ref, Option, ◌≡◌, false, ok, arith}
use ros2trace_analyzer.Utils.Known.{is_unknown}
use ros2trace_analyzer.Model.Callback.{
  Callback, new, new_subscription, new_service, new_timer, set_name, take_running_instance,
}

-- The caller is known, and nothing marks a callback itself as removed.
pub record IsConsistent (c : Callback) : Type 0 where
  pub caller : is_unknown c.caller ≡ false
  pub kept : c.is_removed ≡ false

pub new_subscription-IsConsistent :
    (h : ℕ) (r : Ref) (hostname : String) → IsConsistent (new_subscription h r hostname)
unfolding new_subscription new is_unknown
new_subscription-IsConsistent h r hostname = ground arith

pub new_service-IsConsistent :
    (h : ℕ) (r : Ref) (hostname : String) → IsConsistent (new_service h r hostname)
unfolding new_service new is_unknown
new_service-IsConsistent h r hostname = ground arith

pub new_timer-IsConsistent :
    (h : ℕ) (r : Ref) (hostname : String) → IsConsistent (new_timer h r hostname)
unfolding new_timer new is_unknown
new_timer-IsConsistent h r hostname = ground arith

pub set_name-IsConsistent :
    (name : String) (c c' : Callback) → IsConsistent c → set_name name c ≡ ok c' → IsConsistent c'
unfolding set_name is_unknown
set_name-IsConsistent name c c' k e = ground arith

pub take_running_instance-IsConsistent :
    (c : Callback) → IsConsistent c → IsConsistent (take_running_instance c).0
unfolding take_running_instance
take_running_instance-IsConsistent c k = ground arith

pub running-IsConsistent :
    (r : Option Ref) (c : Callback)
    → IsConsistent c
    → IsConsistent (record c { running_instance = r })
running-IsConsistent r c k = ground arith

pub ruleset consistency = (
  new_subscription-IsConsistent, new_service-IsConsistent, new_timer-IsConsistent,
  set_name-IsConsistent, take_running_instance-IsConsistent, running-IsConsistent,
)

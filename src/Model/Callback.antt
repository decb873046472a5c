-- ===== src/Model/Callback.antt =====
-- `CallbackCaller`, `CallbackType` and `Callback` of src/model/mod.rs.
pub mod Consistency
use ros2trace_analyzer.Common.{
  ℕ, String, Ref, Bool, false, Option, none, Result, ok, err, fault, panic, already_set,
  if◌then◌else◌,
}
use ros2trace_analyzer.Utils.ArcWeak.{ArcWeak, weak}
use ros2trace_analyzer.Utils.Known.{Known, known, unknown, is_unknown}

pub data CallbackType : Type 0 where
  subscription service timer : CallbackType

pub data CallbackCaller : Type 0 where
  subscription : ArcWeak → CallbackCaller
  service : ArcWeak → CallbackCaller
  timer : ArcWeak → CallbackCaller

unfoldable pub callback_type : CallbackCaller → CallbackType
callback_type (CallbackCaller.subscription _) = CallbackType.subscription
callback_type (CallbackCaller.service _) = CallbackType.service
callback_type (CallbackCaller.timer _) = CallbackType.timer

pub record Callback : Type 0 where
  pub handle : ℕ
  pub caller : Known CallbackCaller
  pub name : Known String
  pub running_instance : Option Ref
  pub hostname : String
  pub is_removed : Bool

unfoldable pub new : ℕ → CallbackCaller → String → Callback
new handle caller hostname = record {
  handle = handle;
  caller = known caller;
  name = unknown;
  running_instance = none;
  hostname = hostname;
  is_removed = false;
}

unfoldable pub new_subscription : ℕ → Ref → String → Callback
unfolding new
new_subscription handle caller hostname =
    new handle (CallbackCaller.subscription (weak caller)) hostname

unfoldable pub new_service : ℕ → Ref → String → Callback
unfolding new
new_service handle caller hostname = new handle (CallbackCaller.service (weak caller)) hostname

unfoldable pub new_timer : ℕ → Ref → String → Callback
unfolding new
new_timer handle caller hostname = new handle (CallbackCaller.timer (weak caller)) hostname

unfoldable pub set_name : String → Callback → Result Callback
unfolding is_unknown
set_name name c =
    if c.is_removed
    then fault panic
    else if is_unknown c.name
    then ok (record c { name = known name })
    else err (already_set "callback name already set")

-- `Option::take`: the new callback, and the instance that ran.
unfoldable pub take_running_instance : Callback → Callback × Option Ref
take_running_instance c = (record c { running_instance = none }, c.running_instance)

-- ===== src/Display/Deadlock/Summary.antt =====
-- The summary of a callback: the caller that it unwraps was upgraded just before, to read its node.
use ros2trace_analyzer.Common.{String, Ref, Option, none, some, ◌≡◌, refl}
use ros2trace_analyzer.Utils.Known.{Known, known, unknown}
use ros2trace_analyzer.Utils.ArcWeak.{ArcWeak, get_arc}
use ros2trace_analyzer.Model.Callback.{Callback, CallbackCaller}
use ros2trace_analyzer.Processor.State.{World, Heap}
use ros2trace_analyzer.Analysis.Base.{◌>>=◌}
use ros2trace_analyzer.Display.{Environment, LockType, Held}
use ros2trace_analyzer.Display.Summary.{
  node_of_locked, unwrapped_text, get_node_of_caller, node_name_text, caller_summary,
  caller_and_node, summary_of_caller, subscriber_summary, service_summary, timer_summary,
  callback_summary,
}
use ros2trace_analyzer.Display.Shows.{Shows, shows, IsFree, bind-Shows, with_lock-Shows}
use ros2trace_analyzer.Display.Deadlock.{CallersAreFree}

module _ (env : Environment) (w : World) (held : Held) (free : CallersAreFree env w held) where
  node_name_text-Shows : (node : Option Ref) → Shows (node_name_text env w node held)
  unfolding node_name_text
  node_name_text-Shows none = shows
  node_name_text-Shows (some r) = with_lock-Shows _ _ _ r held free.node_free (λ n. shows)

  -- The text of a caller that can be unwrapped.
  caller_and_node-Shows :
      (caller : CallbackCaller) (node : Option ArcWeak)
      → Shows (caller_summary env w caller held)
      → Shows (caller_and_node env w caller node held)
  unfolding caller_and_node
  caller_and_node-Shows caller none s = shows
  caller_and_node-Shows caller (some node) s =
      bind-Shows (node_name_text-Shows (get_arc env.node_alive node))
        (λ name. bind-Shows s (λ c. shows))

  -- A caller of some type, upgraded or not: where it is not, there is no node, and nothing is unwrapped.
  module _ {A : Type 0} (t : LockType) (h : Heap A) (t_free : IsFree t held)
      (node : A → Known ArcWeak) (show : A → String) where
    node_of_locked-Shows :
        (caller : CallbackCaller) (upgraded : Option Ref)
        → caller_summary env w caller held ≡ unwrapped_text t h show upgraded held
        → Shows (node_of_locked t h node upgraded held >>= λ n. caller_and_node env w caller n held)
    unfolding node_of_locked unwrapped_text caller_and_node
    node_of_locked-Shows caller none e = shows
    node_of_locked-Shows caller (some r) e =
        bind-Shows (with_lock-Shows _ _ _ r held t_free (λ a. shows)) (λ n.
          caller_and_node-Shows caller n (rw e (with_lock-Shows t h _ r held t_free (λ a. shows))))

  summary_of_caller-Shows : (k : Known CallbackCaller) → Shows (summary_of_caller env w k held)
  unfolding summary_of_caller get_node_of_caller caller_summary
  summary_of_caller-Shows unknown = shows
  summary_of_caller-Shows (known (CallbackCaller.subscription s)) =
      node_of_locked-Shows _ _ free.subscriber_free _ (subscriber_summary env w)
        (CallbackCaller.subscription s) (get_arc env.alive.subscriber s) refl
  summary_of_caller-Shows (known (CallbackCaller.service s)) =
      node_of_locked-Shows _ _ free.service_free _ (service_summary env w)
        (CallbackCaller.service s) (get_arc env.alive.service s) refl
  summary_of_caller-Shows (known (CallbackCaller.timer t)) =
      node_of_locked-Shows _ _ free.timer_free _ (timer_summary env w) (CallbackCaller.timer t)
        (get_arc env.alive.timer t) refl

  -- The summary of a callback takes no lock that is held, and nothing in it panics, where no caller and no node of a
  -- callback is locked.
  pub callback_summary-Shows : (c : Callback) → Shows (callback_summary env w c held)
  unfolding callback_summary
  callback_summary-Shows c = summary_of_caller-Shows c.caller

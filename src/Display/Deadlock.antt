-- ===== src/Display/Deadlock.antt =====
-- No text takes a lock that is held already. A subscriber, a service and a timer show their callback, and a callback
-- shows them: the alternate form ends this circle.
pub mod Messages
pub mod Events
pub mod Summary
use ros2trace_analyzer.Common.{String, Ref, Bool, true, false, ◌∷◌}
use ros2trace_analyzer.Utils.Known.{Known, known, unknown}
use ros2trace_analyzer.Utils.ArcWeak.{ArcWeak}
use ros2trace_analyzer.Model.Node.{Node}
use ros2trace_analyzer.Model.Publisher.{Publisher}
use ros2trace_analyzer.Model.Subscriber.{Subscriber}
use ros2trace_analyzer.Model.Service.{Service}
use ros2trace_analyzer.Model.Client.{Client}
use ros2trace_analyzer.Model.Timer.{Timer}
use ros2trace_analyzer.Model.Callback.{Callback, CallbackCaller}
use ros2trace_analyzer.Processor.State.{World}
use ros2trace_analyzer.Display.{Environment, LockType, Held, arc_mutex_text}
use ros2trace_analyzer.Display.Objects.{
  node_text, node_of_text, publisher_text, callback_alternate_text, callback_of_text,
  node_and_callback, subscriber_text, service_text, client_text, timer_text, caller_of_text,
  callback_text,
}
use ros2trace_analyzer.Display.Shows.{
  Shows, shows, IsFree, bind-Shows, between-Shows, known_text-Shows, arc_mutex_text-Shows,
  arc_weak_mutex_text-Shows,
}

module _ (env : Environment) (w : World) where
  pub node_text-Shows : (n : Node) (held : Held) → Shows (node_text env w n held)
  unfolding node_text
  node_text-Shows n held = shows

  pub node_of_text-Shows :
      (skip : Bool) (k : Known ArcWeak) (held : Held)
      → IsFree LockType.node held
      → Shows (node_of_text env w skip k held)
  unfolding node_of_text
  node_of_text-Shows skip k held free = known_text-Shows _ k held (λ reference.
      arc_weak_mutex_text-Shows (node_text env w) LockType.node w.nodes held free env.node_alive
        skip reference (λ r n. node_text-Shows n ((LockType.node, r) ∷ held)))

  pub callback_alternate_text-Shows :
      (c : Callback) (held : Held) → Shows (callback_alternate_text env w c held)
  unfolding callback_alternate_text
  callback_alternate_text-Shows c held = shows

  -- A callback that is skipped is not locked.
  pub skipped-Shows : (k : Known Ref) (held : Held) → Shows (callback_of_text env w true k held)
  unfolding callback_of_text arc_mutex_text
  skipped-Shows k held = known_text-Shows _ k held (λ r. shows)

  pub callback_of_text-Shows :
      (skip : Bool) (k : Known Ref) (held : Held)
      → IsFree LockType.callback held
      → Shows (callback_of_text env w skip k held)
  unfolding callback_of_text
  callback_of_text-Shows skip k held free = known_text-Shows _ k held (λ r.
      arc_mutex_text-Shows (callback_alternate_text env w) LockType.callback w.callbacks held free
        skip r (λ r' c. callback_alternate_text-Shows c ((LockType.callback, r') ∷ held)))

  node_and_callback-Shows :
      (before separator : String) (skip : Bool) (node : Known ArcWeak) (callback : Known Ref)
      (held : Held)
      → IsFree LockType.node held
      → Shows (callback_of_text env w skip callback held)
      → Shows (node_and_callback env w before separator skip node callback held)
  unfolding node_and_callback
  node_and_callback-Shows before separator skip node callback held free c =
      bind-Shows (node_of_text-Shows false node held free) (λ n. bind-Shows c (λ s. shows))

  pub publisher_text-Shows :
      (alternate : Bool) (p : Publisher) (held : Held)
      → IsFree LockType.node held
      → Shows (publisher_text env w alternate p held)
  unfolding publisher_text
  publisher_text-Shows alternate p held free =
      between-Shows _ _ (node_of_text-Shows alternate p.node held free)

  pub client_text-Shows :
      (alternate : Bool) (c : Client) (held : Held)
      → IsFree LockType.node held
      → Shows (client_text env w alternate c held)
  unfolding client_text
  client_text-Shows alternate c held free =
      between-Shows _ _ (node_of_text-Shows alternate c.node held free)

  module _ (alternate : Bool) (held : Held) (free : IsFree LockType.node held) where
    pub subscriber_text-Shows :
        (s : Subscriber)
        → Shows (callback_of_text env w alternate s.callback held)
        → Shows (subscriber_text env w alternate s held)
    unfolding subscriber_text
    subscriber_text-Shows s c = node_and_callback-Shows _ _ alternate s.node s.callback held free c

    pub service_text-Shows :
        (s : Service)
        → Shows (callback_of_text env w alternate s.callback held)
        → Shows (service_text env w alternate s held)
    unfolding service_text
    service_text-Shows s c = node_and_callback-Shows _ _ alternate s.node s.callback held free c

    pub timer_text-Shows :
        (t : Timer)
        → Shows (callback_of_text env w alternate t.callback held)
        → Shows (timer_text env w alternate t held)
    unfolding timer_text
    timer_text-Shows t c = node_and_callback-Shows _ _ alternate t.node t.callback held free c

  -- The callers of callbacks, none of which is locked.
  pub record CallersAreFree (held : Held) : Type 0 where
    pub subscriber_free : IsFree LockType.subscriber held
    pub service_free : IsFree LockType.service held
    pub timer_free : IsFree LockType.timer held
    pub node_free : IsFree LockType.node held

  caller_of_text-Shows :
      (k : Known CallbackCaller) (held : Held)
      → CallersAreFree held
      → Shows (caller_of_text env w k held)
  unfolding caller_of_text
  caller_of_text-Shows (known (CallbackCaller.subscription s)) held free = between-Shows _ _ (
      arc_weak_mutex_text-Shows _ LockType.subscriber w.subscribers held free.subscriber_free
        env.alive.subscriber false s
        (λ r a. subscriber_text-Shows true _ free.node_free a (skipped-Shows a.callback _)))
  caller_of_text-Shows (known (CallbackCaller.service s)) held free = between-Shows _ _ (
      arc_weak_mutex_text-Shows _ LockType.service w.services held free.service_free
        env.alive.service false s
        (λ r a. service_text-Shows true _ free.node_free a (skipped-Shows a.callback _)))
  caller_of_text-Shows (known (CallbackCaller.timer t)) held free = between-Shows _ _ (
      arc_weak_mutex_text-Shows _ LockType.timer w.timers held free.timer_free env.alive.timer false
        t (λ r a. timer_text-Shows true _ free.node_free a (skipped-Shows a.callback _)))
  caller_of_text-Shows unknown held free = shows

  pub callback_text-Shows :
      (c : Callback) (held : Held) → CallersAreFree held → Shows (callback_text env w false c held)
  unfolding callback_text
  callback_text-Shows c held free = between-Shows _ _ (caller_of_text-Shows c.caller held free)

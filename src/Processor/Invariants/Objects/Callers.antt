-- ===== src/Processor/Invariants/Objects/Callers.antt =====
-- The steps that several handlers share keep the objects consistent.
use ros2trace_analyzer.Common.{ℕ, Ref, Option, none, some, Object}
use ros2trace_analyzer.Model.Callback.{Callback, CallbackCaller}
use ros2trace_analyzer.Model.Callback.Consistency.{IsConsistent as CallbackOk}
use ros2trace_analyzer.Processor.Id.{ContextId}
use ros2trace_analyzer.Processor.Exec.Keeps.{Keeps, keeps_rules}
use ros2trace_analyzer.Processor.Exec.Objects.{object_rules}
use ros2trace_analyzer.Processor.Callers.{
  Liveness, subscriber_removed, service_removed, timer_removed, is_removed, caller_removed,
  filter_out_removed_callers, filter_old, reject_old, register_callback,
}
use ros2trace_analyzer.Processor.Subscriptions.{node_or_missing, dependent_node}
use ros2trace_analyzer.Processor.Invariants.Objects.Defs.{ObjectsAreConsistent as P, heaps}

node_or_missing-Keeps : (h : ℕ) (d : Object) (o : Option Ref) → Keeps P (node_or_missing h d o)
unfolding node_or_missing
node_or_missing-Keeps h d none = search keeps_rules
node_or_missing-Keeps h d (some r) = search keeps_rules

pub dependent_node-Keeps : (h : ℕ) (c : ContextId) (d : Object) → Keeps P (dependent_node h c d)
unfolding dependent_node
dependent_node-Keeps h c d = search (keeps_rules, node_or_missing-Keeps)

module _ (alive : Liveness) where
  subscriber_removed-Keeps : (o : Option Ref) → Keeps P (subscriber_removed alive o)
  unfolding subscriber_removed
  subscriber_removed-Keeps none = search keeps_rules
  subscriber_removed-Keeps (some r) = search keeps_rules

  service_removed-Keeps : (o : Option Ref) → Keeps P (service_removed alive o)
  unfolding service_removed
  service_removed-Keeps none = search keeps_rules
  service_removed-Keeps (some r) = search keeps_rules

  timer_removed-Keeps : (o : Option Ref) → Keeps P (timer_removed alive o)
  unfolding timer_removed
  timer_removed-Keeps none = search keeps_rules
  timer_removed-Keeps (some r) = search keeps_rules

  is_removed-Keeps : (caller : CallbackCaller) → Keeps P (is_removed alive caller)
  unfolding is_removed
  is_removed-Keeps (CallbackCaller.subscription s) = subscriber_removed-Keeps _
  is_removed-Keeps (CallbackCaller.service s) = service_removed-Keeps _
  is_removed-Keeps (CallbackCaller.timer t) = timer_removed-Keeps _

  caller_removed-Keeps : (o : Option CallbackCaller) → Keeps P (caller_removed alive o)
  unfolding caller_removed
  caller_removed-Keeps none = search keeps_rules
  caller_removed-Keeps (some caller) = is_removed-Keeps caller

  filter_out-Keeps : (old : Ref) → Keeps P (filter_out_removed_callers alive old)
  unfolding filter_out_removed_callers
  filter_out-Keeps old = search (keeps_rules, caller_removed-Keeps)

  filter_old-Keeps : (o : Option Ref) → Keeps P (filter_old alive o)
  unfolding filter_old
  filter_old-Keeps none = search keeps_rules
  filter_old-Keeps (some old) = filter_out-Keeps old

reject_old-Keeps : (h : ℕ) (r : Ref) (o : Option Ref) → Keeps P (reject_old h r o)
unfolding reject_old
reject_old-Keeps h r none = search keeps_rules
reject_old-Keeps h r (some old) = search keeps_rules

pub register_callback-Keeps :
    (alive : Liveness) (h : ℕ) (c : ContextId) (callback : Callback)
    → CallbackOk callback
    → Keeps P (register_callback alive h c callback)
unfolding register_callback
register_callback-Keeps alive h c callback ok =
    search (object_rules, keeps_rules, heaps, filter_old-Keeps, reject_old-Keeps) depth 12

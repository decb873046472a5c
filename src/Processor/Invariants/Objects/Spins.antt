-- ===== src/Processor/Invariants/Objects/Spins.antt =====
-- The handlers of R2R events keep the objects consistent.
use ros2trace_analyzer.Common.{ℕ, Ref, Option, none, some, ◌≡◌, Result, ok}
use ros2trace_analyzer.Model.Node.Consistency as NodeConsistency
use ros2trace_analyzer.Model.PublicationMessage.{Time}
use ros2trace_analyzer.Model.SpinInstance.{SpinInstance}
use ros2trace_analyzer.Model.SpinInstance.Consistency as SpinConsistency
use ros2trace_analyzer.Model.SpinInstance.Consistency.{IsConsistent as SpinOk}
use ros2trace_analyzer.Events.Raw.R2r.{SpinStart, SpinEnd, SpinWake, SpinTimeout, UpdateTime}
use ros2trace_analyzer.Processor.Id.{ContextId}
use ros2trace_analyzer.Processor.Exec.Keeps.{Keeps, keeps_rules}
use ros2trace_analyzer.Processor.Exec.Objects.{object_rules}
use ros2trace_analyzer.Processor.Spins.{
  node_of_spin, inspect_spin, process_spin_start, process_spin_end, process_spin_wake,
  process_spin_timeout, process_update_time,
}
use ros2trace_analyzer.Processor.Invariants.Objects.Defs.{ObjectsAreConsistent as P, heaps}

ruleset rules =
    (object_rules, keeps_rules, heaps, NodeConsistency.consistency, SpinConsistency.consistency)

node_of_spin-Keeps : (h : ℕ) (c : ContextId) → Keeps P (node_of_spin h c)
unfolding node_of_spin
node_of_spin-Keeps h c = search keeps_rules

inspect_spin-Keeps :
    (method : SpinInstance → Result SpinInstance) (o : Option Ref)
    → ((s s' : SpinInstance) → SpinOk s → method s ≡ ok s' → SpinOk s')
    → Keeps P (inspect_spin method o)
unfolding inspect_spin
inspect_spin-Keeps method none keeps = search keeps_rules
inspect_spin-Keeps method (some r) keeps = search rules

ruleset spin_rules = (rules, node_of_spin-Keeps, inspect_spin-Keeps)

pub process_spin_start-Keeps :
    (e : SpinStart) (t : Time) (c : ContextId) → Keeps P (process_spin_start e t c)
unfolding process_spin_start
process_spin_start-Keeps e t c = search spin_rules depth 12

pub process_spin_end-Keeps :
    (e : SpinEnd) (t : Time) (c : ContextId) → Keeps P (process_spin_end e t c)
unfolding process_spin_end
process_spin_end-Keeps e t c = search spin_rules depth 12

pub process_spin_wake-Keeps :
    (e : SpinWake) (t : Time) (c : ContextId) → Keeps P (process_spin_wake e t c)
unfolding process_spin_wake
process_spin_wake-Keeps e t c = search spin_rules depth 12

pub process_spin_timeout-Keeps :
    (e : SpinTimeout) (t : Time) (c : ContextId) → Keeps P (process_spin_timeout e t c)
unfolding process_spin_timeout
process_spin_timeout-Keeps e t c = search spin_rules depth 12

pub process_update_time-Keeps : (e : UpdateTime) (c : ContextId) → Keeps P (process_update_time e c)
unfolding process_update_time
process_update_time-Keeps e c = search keeps_rules

-- ===== src/Processor/Invariants/Objects/Publishers.antt =====
-- The handlers for nodes, publishers and publications keep the objects consistent.
use ros2trace_analyzer.Common.{
  ℕ, Ref, Bool, true, false, Option, none, some, ◌≡◌, ok, fault, panic, arith, str_eq,
  if◌then◌else◌,
}
use ros2trace_analyzer.Model.Node
use ros2trace_analyzer.Model.Node.{Node}
use ros2trace_analyzer.Model.Node.Consistency as NodeConsistency
use ros2trace_analyzer.Model.Node.Consistency.{IsConsistent as NodeOk}
use ros2trace_analyzer.Model.Publisher.{Publisher}
use ros2trace_analyzer.Model.Publisher.Consistency as PublisherConsistency
use ros2trace_analyzer.Model.Publisher.Consistency.{IsConsistent as PublisherOk}
use ros2trace_analyzer.Model.PublicationMessage.Consistency as MessageConsistency
use ros2trace_analyzer.Events.Raw.Ros2.{RclNodeInit, RmwPublisherInit, RclPublisherInit}
use ros2trace_analyzer.Processor.Id.{ContextId}
use ros2trace_analyzer.Processor.Exec.Keeps.{Keeps, Keeps-bind, keeps_rules}
use ros2trace_analyzer.Processor.Exec.Objects.{Makes, lift-Makes, object_rules}
use ros2trace_analyzer.Processor.Nodes.{rcl_init_node, node_entry, process_rcl_node_init}
use ros2trace_analyzer.Processor.Publishers.{
  rmw_replace, process_rmw_publisher_init, node_of_publisher, rcl_init_publisher, rcl_replace,
  mark_old_removed, process_rcl_publisher_init,
}
use ros2trace_analyzer.Processor.Invariants.Objects.Defs.{ObjectsAreConsistent as P, heaps}

ruleset rules = (
  object_rules, keeps_rules, heaps, NodeConsistency.consistency, PublisherConsistency.consistency,
  MessageConsistency.consistency,
)

rcl_init_node-Ok : (e : RclNodeInit) (n n' : Node) → rcl_init_node e n ≡ ok n' → NodeOk n'
unfolding rcl_init_node
rcl_init_node-Ok e n n' h = NodeConsistency.rcl_init-IsConsistent _ _ _ n n' h

node_entry-Keeps : (e : RclNodeInit) (c : ContextId) (o : Option Ref) → Keeps P (node_entry e c o)
unfolding node_entry
node_entry-Keeps e c none = search (rules, rcl_init_node-Ok) depth 12
node_entry-Keeps e c (some r) = search (rules, rcl_init_node-Ok) depth 12

pub process_rcl_node_init-Keeps :
    (e : RclNodeInit) (c : ContextId) → Keeps P (process_rcl_node_init e c)
unfolding process_rcl_node_init
process_rcl_node_init-Keeps e c = search (keeps_rules, node_entry-Keeps)

rmw_replace-Keeps :
    (e : RmwPublisherInit) (c : ContextId) (r : Ref) (b : Bool) → Keeps P (rmw_replace e c r b)
unfolding rmw_replace
rmw_replace-Keeps e c r true = search rules
rmw_replace-Keeps e c r false = search rules depth 12

pub process_rmw_publisher_init-Keeps :
    (e : RmwPublisherInit) (c : ContextId) → Keeps P (process_rmw_publisher_init e c)
unfolding process_rmw_publisher_init
process_rmw_publisher_init-Keeps e c = search (rules, rmw_replace-Keeps) depth 12

early_node :
    (b : Bool) (h : ℕ) (n : Node) → (if b then ok (Node.new h) else fault panic) ≡ ok n → NodeOk n
early_node true h n e = ground (arith, NodeConsistency.new-IsConsistent h)
early_node false h n e = cc

node_of_publisher-Makes : (e : RclPublisherInit) → Makes P NodeOk (node_of_publisher e)
unfolding node_of_publisher
node_of_publisher-Makes e =
    lift-Makes _ (λ n h. early_node (str_eq e.topic_name "/rosout") e.node_handle n h)

rcl_init_publisher-Ok :
    (e : RclPublisherInit) (n : Ref) (p p' : Publisher)
    → PublisherOk p
    → rcl_init_publisher e n p ≡ ok p'
    → PublisherOk p'
unfolding rcl_init_publisher
rcl_init_publisher-Ok e n p p' = PublisherConsistency.rcl_init-IsConsistent _ _ _ _ p p'

rcl_replace-Keeps :
    (e : RclPublisherInit) (c : ContextId) (n r : Ref) (b : Bool) → Keeps P (rcl_replace e c n r b)
unfolding rcl_replace
rcl_replace-Keeps e c n r true = search rules
rcl_replace-Keeps e c n r false = search (rules, rcl_init_publisher-Ok) depth 12

mark_old_removed-Keeps : (o : Option Ref) → Keeps P (mark_old_removed o)
unfolding mark_old_removed
mark_old_removed-Keeps none = search rules
mark_old_removed-Keeps (some r) = search rules

pub process_rcl_publisher_init-Keeps :
    (e : RclPublisherInit) (c : ContextId) → Keeps P (process_rcl_publisher_init e c)
unfolding process_rcl_publisher_init
process_rcl_publisher_init-Keeps e c = Keeps-bind _ _ (search rules depth 8) λ r.
    Keeps-bind _ _ (search (rules, node_of_publisher-Makes)) λ n.
      Keeps-bind _ _ (search (rules, rcl_init_publisher-Ok)) λ b.
        Keeps-bind _ _ (rcl_replace-Keeps e c n r b)
          λ p. search (rules, mark_old_removed-Keeps) depth 12

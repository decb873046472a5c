-- ===== src/Analysis/DependencyGraph/Dot.antt =====
-- `DisplayAsDot::new` and `process_edges` of src/analysis/dependency_graph.rs: the numbers of the nodes, and the
-- edges with their weights, before they are written as text. The maps are gone through in the order in which
-- they are listed here.
pub mod Services
use ros2trace_analyzer.Common.{
  ℕ, ◌+◌, ℤ, i64_max, i64_min, Ref, Bool, true, false, ◌==◌, List, [], ◌∷◌, ◌++◌, length, Option,
  none, some, Result, ok, fault, ◌≡◌, ◌↔◌, arith, map,
}
use ros2trace_analyzer.Utils.ArcWeak.{ArcWeak, get_arc}
use ros2trace_analyzer.Utils.Known.{Known, known, unknown, into_option}
use ros2trace_analyzer.Model.Callback.{CallbackCaller}
use ros2trace_analyzer.Processor.State.{World}
use ros2trace_analyzer.Processor.Callers.{Liveness}
use ros2trace_analyzer.Statistics.{Sorted, from_unsorted, median, i64_order}
use ros2trace_analyzer.Statistics.Float.{Floats}
use ros2trace_analyzer.Analysis.Base.{◌>>=◌, expect, lock}
use ros2trace_analyzer.Analysis.Table.{Key, Table, get, insert, update, add, ref_key}
use ros2trace_analyzer.Analysis.DependencyGraph.Graph.{
  Node, Edge, EdgeType, EdgeData, DependencyGraph, source, target, as_type,
}
use ros2trace_analyzer.Analysis.DependencyGraph.Ranges.{
  Range, EdgeWeightStats, default, no_range, update_range, validate_range,
  update_subscriber_to_callback, update_timer_to_callback, update_callback_to_publisher,
}

-- The derived `PartialEq`.
abbrev pub node_eq : Node → Node → Bool
node_eq (Node.publisher a) (Node.publisher b) = a == b
node_eq (Node.subscriber a) (Node.subscriber b) = a == b
node_eq (Node.service a) (Node.service b) = a == b
node_eq (Node.timer a) (Node.timer b) = a == b
node_eq (Node.callback a) (Node.callback b) = a == b
node_eq _ _ = false

pub node_eq_iff : (a b : Node) → (node_eq a b ≡ true) ↔ (a ≡ b)
node_eq_iff a b = ground arith

instance abbrev pub node_key : Key Node
node_key = record { same = node_eq; same_iff = node_eq_iff }

-- The variables of the loops over the nodes.
pub record Numbering : Type 0 where
  pub node_to_id : Table Node ℕ
  pub graph_node_to_ros_node : Table Node Ref
  pub graph_node_id : ℕ

abbrev pub no_numbers : Numbering
no_numbers = record { node_to_id = []; graph_node_to_ros_node = []; graph_node_id = 1 }

-- `none`: no ROS node is known for this node.
unfoldable pub number : Node → Option Ref → Numbering → Numbering
number node none n = record n {
  node_to_id = insert node n.graph_node_id n.node_to_id;
  graph_node_id = n.graph_node_id + 1;
}
number node (some ros_node) n = record {
  node_to_id = insert node n.graph_node_id n.node_to_id;
  graph_node_to_ros_node = insert node ros_node n.graph_node_to_ros_node;
  graph_node_id = n.graph_node_id + 1;
}

-- A loop over the keys of one of the maps: the node of each, and the ROS node that is found for it.
unfoldable pub number_all :
    {V : Type 0}
    → (Ref → Node)
    → (Ref → Result (Option Ref))
    → Table Ref V
    → Numbering
    → Result Numbering
unfolding number
number_all node ros_node [] n = ok n
number_all node ros_node ((r, v) ∷ rest) n = do
  found ← ros_node r
  number_all node ros_node rest (number (node r) found n)

module _ (alive : Liveness) (node_alive : Ref → Bool) (w : World) where
  unfoldable pub if_known : Option ArcWeak → Result (Option Ref)
  unfolding get_arc
  if_known none = ok none
  if_known (some node) = do ros_node ← expect (get_arc node_alive node); ok (some ros_node)

  unfoldable pub must_be_known : Option ArcWeak → Result (Option Ref)
  unfolding get_arc
  must_be_known node = do
    weak_node ← expect node
    ros_node ← expect (get_arc node_alive weak_node)
    ok (some ros_node)

  unfoldable pub node_of_publisher : Ref → Result (Option Ref)
  unfolding if_known
  node_of_publisher r = do publisher ← lock w.publishers r; if_known (into_option publisher.node)

  unfoldable pub node_of_subscriber : Ref → Result (Option Ref)
  unfolding if_known
  node_of_subscriber r = do
    subscriber ← lock w.subscribers r
    if_known (into_option subscriber.node)

  unfoldable pub node_of_timer : Ref → Result (Option Ref)
  unfolding must_be_known
  node_of_timer r = do timer ← lock w.timers r; must_be_known (into_option timer.node)

  -- `Callback::get_node`: the `?` on a caller that is gone is the answer `none`.
  unfoldable pub node_of_caller : CallbackCaller → Result (Option ArcWeak)
  unfolding get_arc
  node_of_caller (CallbackCaller.subscription s) = elim (get_arc alive.subscriber s) [
    | none ↦ ok none
    | some r ↦ (lock w.subscribers r >>= λ x. ok (into_option x.node))
  ]
  node_of_caller (CallbackCaller.service s) = elim (get_arc alive.service s) [
    | none ↦ ok none
    | some r ↦ (lock w.services r >>= λ x. ok (into_option x.node))
  ]
  node_of_caller (CallbackCaller.timer t) = elim (get_arc alive.timer t) [
    | none ↦ ok none
    | some r ↦ (lock w.timers r >>= λ x. ok (into_option x.node))
  ]

  unfoldable pub get_node : Option CallbackCaller → Result (Option ArcWeak)
  unfolding node_of_caller
  get_node none = ok none
  get_node (some caller) = node_of_caller caller

  unfoldable pub node_of_callback : Ref → Result (Option Ref)
  unfolding get_node must_be_known
  node_of_callback r = do
    callback ← lock w.callbacks r
    node ← get_node (into_option callback.caller)
    must_be_known node

  unfoldable pub number_nodes : DependencyGraph → Result Numbering
  unfolding number_all node_of_publisher node_of_subscriber node_of_timer node_of_callback
  number_nodes g = do
    n ← number_all Node.publisher node_of_publisher g.publisher_nodes no_numbers
    n ← number_all Node.subscriber node_of_subscriber g.subscriber_nodes n
    n ← number_all Node.timer node_of_timer g.timer_nodes n
    number_all Node.callback node_of_callback g.callback_nodes n

-- `values().collect::<HashSet<_>>()`.
unfoldable pub unique_ros_nodes : Table Node Ref → List Ref
unique_ros_nodes [] = []
unique_ros_nodes ((node, r) ∷ rest) = add r (unique_ros_nodes rest)

-- `enumerate`, from a number on.
unfoldable pub enumerate_from : ℕ → List Ref → Table Ref ℕ
enumerate_from i [] = []
enumerate_from i (r ∷ rs) = insert r i (enumerate_from (i + 1) rs)

pub record DisplayAsDotEdge : Type 0 where
  pub source : ℕ
  pub target : ℕ
  pub latencies : Sorted ℤ
  pub node_index : Option ℕ
  pub edge_type : EdgeType

-- The variables of `process_edges`.
pub record Edges : Type 0 where
  pub edges : List DisplayAsDotEdge
  pub ros_nodes_min_max_latency_stats : Table Ref EdgeWeightStats
  pub pub_sub : Range

abbrev pub on_stats : (EdgeWeightStats → EdgeWeightStats) → Ref → Edges → Edges
on_stats f r e = record e {
  ros_nodes_min_max_latency_stats = update r default f e.ros_nodes_min_max_latency_stats;
}

-- The match on the type of the edge; the Boolean says whether both ends belong to the same ROS node.
unfoldable pub weigh : EdgeType → Bool → ℤ → Ref → Table Ref ℕ → Edges → Result (Option ℕ × Edges)
unfolding update_range update_subscriber_to_callback update_timer_to_callback
    update_callback_to_publisher
weigh EdgeType.publisher_subscriber_communication same median_ns r ids e =
    ok (none, record e { pub_sub = update_range median_ns e.pub_sub })
weigh EdgeType.subscriber_callback_invocation true median_ns r ids e = do
  id ← expect (get r ids)
  ok (some id, on_stats (update_subscriber_to_callback median_ns) r e)
weigh EdgeType.timer_callback_invocation true median_ns r ids e = do
  id ← expect (get r ids)
  ok (some id, on_stats (update_timer_to_callback median_ns) r e)
weigh EdgeType.publication_in_callback true median_ns r ids e = do
  id ← expect (get r ids)
  ok (some id, on_stats (update_callback_to_publisher median_ns) r e)
weigh _ _ median_ns r ids e = ok (none, e)

pub record DisplayAsDot : Type 0 where
  pub numbering : Numbering
  pub ros_nodes : List Ref
  pub ros_node_to_id : Table Ref ℕ
  pub ros_nodes_min_max_latency_stats : Table Ref EdgeWeightStats
  pub edges : List DisplayAsDotEdge
  pub pub_sub_latency_range : Option Range

module _ {F : Type 0} (floats : Floats F) where
  -- `map[&key]` panics where the key is missing.
  unfoldable pub process_edge : Numbering → Table Ref ℕ → Edge → EdgeData → Edges → Result Edges
  unfolding weigh source target as_type from_unsorted median
  process_edge n ids edge data' e = do
    let latencies = from_unsorted data'.latencies
    median_ns ← expect (median floats latencies)
    source_ros_node ← expect (get (source edge) n.graph_node_to_ros_node)
    target_ros_node ← expect (get (target edge) n.graph_node_to_ros_node)
    weighed ←
        weigh (as_type edge) (source_ros_node == target_ros_node) median_ns source_ros_node ids e
    source_id ← expect (get (source edge) n.node_to_id)
    target_id ← expect (get (target edge) n.node_to_id)
    ok (record weighed.1 {
      edges =
          weighed.1.edges
          ++ record {
            source = source_id;
            target = target_id;
            latencies = latencies;
            node_index = weighed.0;
            edge_type = as_type edge;
          }
            ∷ [];
    })

  unfoldable pub process_edges :
      Numbering → Table Ref ℕ → Table Edge EdgeData → Edges → Result Edges
  unfolding process_edge
  process_edges n ids [] e = ok e
  process_edges n ids ((edge, data') ∷ rest) e = do
    e' ← process_edge n ids edge data' e
    process_edges n ids rest e'

  unfoldable pub new : Liveness → (Ref → Bool) → World → DependencyGraph → Result DisplayAsDot
  unfolding number_nodes process_edges unique_ros_nodes enumerate_from validate_range
  new alive node_alive w g = do
    n ← number_nodes alive node_alive w g
    let ros_nodes = unique_ros_nodes n.graph_node_to_ros_node
    let ids = enumerate_from 0 ros_nodes
    e ←
        process_edges n ids g.edges
          (record { edges = []; ros_nodes_min_max_latency_stats = []; pub_sub = no_range })
    ok (record {
      numbering = n;
      ros_nodes = ros_nodes;
      ros_node_to_id = ids;
      ros_nodes_min_max_latency_stats = e.ros_nodes_min_max_latency_stats;
      edges = e.edges;
      pub_sub_latency_range = validate_range e.pub_sub;
    })

-- ===== src/Analysis/DependencyGraph/Graph.antt =====
-- The types of src/analysis/dependency_graph.rs: the nodes of the graph and its edges, with the times that
-- are collected for each.
use ros2trace_analyzer.Common.{ℤ, Ref, Bool, true, false, Option, List, [], ◌≡◌, ◌↔◌, arith}
use ros2trace_analyzer.Model.PublicationMessage.{Time}
use ros2trace_analyzer.Analysis.Base.{ThreadId}
use ros2trace_analyzer.Analysis.Table.{Key, Table, ref_key, pair_key, pair_eq}

pub data Node : Type 0 where
  publisher : Ref → Node
  subscriber : Ref → Node
  service : Ref → Node
  timer : Ref → Node
  callback : Ref → Node

pub record PublisherNode : Type 0 where
  pub publication_delay : List ℤ
  pub last_publication : Option Time

pub record SubscriberNode : Type 0 where
  pub take_delay : List ℤ
  pub last_take : Option Time

pub record TimerNode : Type 0 where
  pub activation_delay : List ℤ
  pub last_activation : Option Time

pub record CallbackNode : Type 0 where
  pub activation_delay : List ℤ
  pub durations : List ℤ
  pub last_activation : Option Time

pub data Edge : Type 0 where
  publication_in_callback : (publisher callback : Ref) → Edge
  subscriber_callback_invocation : (subscriber callback : Ref) → Edge
  service_callback_invocation : (service callback : Ref) → Edge
  timer_callback_invocation : (timer callback : Ref) → Edge
  publisher_subscriber_communication : (publisher subscriber : Ref) → Edge

pub data EdgeType : Type 0 where
  publisher_subscriber_communication subscriber_callback_invocation timer_callback_invocation :
      EdgeType
  service_callback_invocation publication_in_callback : EdgeType

pub record EdgeData : Type 0 where
  pub activation_delay : List ℤ
  pub latencies : List ℤ
  pub last_activation : Option Time

unfoldable pub source : Edge → Node
source (Edge.publication_in_callback p c) = Node.callback c
source (Edge.subscriber_callback_invocation s c) = Node.subscriber s
source (Edge.service_callback_invocation s c) = Node.service s
source (Edge.timer_callback_invocation t c) = Node.timer t
source (Edge.publisher_subscriber_communication p s) = Node.publisher p

unfoldable pub target : Edge → Node
target (Edge.publication_in_callback p c) = Node.publisher p
target (Edge.subscriber_callback_invocation s c) = Node.callback c
target (Edge.service_callback_invocation s c) = Node.callback c
target (Edge.timer_callback_invocation t c) = Node.callback c
target (Edge.publisher_subscriber_communication p s) = Node.subscriber s

unfoldable pub as_type : Edge → EdgeType
as_type (Edge.publication_in_callback _ _) = EdgeType.publication_in_callback
as_type (Edge.subscriber_callback_invocation _ _) = EdgeType.subscriber_callback_invocation
as_type (Edge.service_callback_invocation _ _) = EdgeType.service_callback_invocation
as_type (Edge.timer_callback_invocation _ _) = EdgeType.timer_callback_invocation
as_type (Edge.publisher_subscriber_communication _ _) = EdgeType.publisher_subscriber_communication

-- The derived `PartialEq`.
abbrev pub edge_eq : Edge → Edge → Bool
edge_eq (Edge.publication_in_callback p c) (Edge.publication_in_callback q d) =
    pair_eq (p, c) (q, d)
edge_eq (Edge.subscriber_callback_invocation p c) (Edge.subscriber_callback_invocation q d) =
    pair_eq (p, c) (q, d)
edge_eq (Edge.service_callback_invocation p c) (Edge.service_callback_invocation q d) =
    pair_eq (p, c) (q, d)
edge_eq (Edge.timer_callback_invocation p c) (Edge.timer_callback_invocation q d) =
    pair_eq (p, c) (q, d)
edge_eq (Edge.publisher_subscriber_communication p c)
      (Edge.publisher_subscriber_communication q d) =
    pair_eq (p, c) (q, d)
edge_eq _ _ = false

pub edge_eq_iff : (a b : Edge) → (edge_eq a b ≡ true) ↔ (a ≡ b)
edge_eq_iff a b = ground arith

instance abbrev pub edge_key : Key Edge
edge_key = record { same = edge_eq; same_iff = edge_eq_iff }

pub record DependencyGraph : Type 0 where
  pub ros_nodes : List Ref
  pub edges : Table Edge EdgeData
  pub publisher_nodes : Table Ref PublisherNode
  pub subscriber_nodes : Table Ref SubscriberNode
  pub timer_nodes : Table Ref TimerNode
  pub callback_nodes : Table Ref CallbackNode
  pub last_spin_wake_up_time_for_node : Table Ref Time
  pub running_callbacks : Table ThreadId Ref

abbrev pub new : DependencyGraph
new = record {
  ros_nodes = [];
  edges = [];
  publisher_nodes = [];
  subscriber_nodes = [];
  timer_nodes = [];
  callback_nodes = [];
  last_spin_wake_up_time_for_node = [];
  running_callbacks = [];
}

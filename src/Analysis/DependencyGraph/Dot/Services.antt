-- ===== src/Analysis/DependencyGraph/Dot/Services.antt =====
-- What `DisplayAsDot::new` of src/analysis/dependency_graph.rs does with the edge of a service.
use mathlib.Core.List.{Memᴰ}
use mathlib.Core.List.Memᴰ
use ros2trace_analyzer.Common.{
  ℕ, Ref, Bool, false, [], ◌∷◌, Option, none, some, Result, ok, ◌≡◌, ◌≢◌, refl, ap, inl, inr,
  Bool-cases,
}
use ros2trace_analyzer.Model.PublicationMessage.{Time}
use ros2trace_analyzer.Model.CallbackInstance.{service}
use ros2trace_analyzer.Processor.State.{World}
use ros2trace_analyzer.Processor.Callers.{Liveness}
use ros2trace_analyzer.Statistics.{from_unsorted, median, i64_order}
use ros2trace_analyzer.Statistics.Float.{Floats}
use ros2trace_analyzer.Analysis.Base.{expect}
use ros2trace_analyzer.Analysis.Returns.{
  Returns, returns, faults, >>=-Returns, then-Returns, of_Returns,
}
use ros2trace_analyzer.Analysis.Table.{Key, Table, get, insert, ref_key}
use ros2trace_analyzer.Analysis.Table.Laws.{get-insert}
use ros2trace_analyzer.Analysis.DependencyGraph.{process_edge_to_callback}
use ros2trace_analyzer.Analysis.DependencyGraph.Uses.{use_edge, extend, edge_data}
use ros2trace_analyzer.Analysis.DependencyGraph.Graph.{
  Node, Edge, edge_key, EdgeData, DependencyGraph, source,
}
use ros2trace_analyzer.Analysis.DependencyGraph.Dot.{
  node_eq, node_key, Numbering, no_numbers, number, number_all, number_nodes, Edges, process_edge,
  process_edges, DisplayAsDot, new,
}

-- No service has a ROS node in the map.
abbrev NoService : Numbering → Type 0
NoService n = (s : Ref) → get (Node.service s) n.graph_node_to_ros_node ≡ none

number-NoService :
    (node : Node) (found : Option Ref) (n : Numbering)
    → ((s : Ref) → node_eq node (Node.service s) ≡ false)
    → NoService n
    → NoService (number node found n)
unfolding number
number-NoService node none n other h s = h s
number-NoService node (some r) n other h s =
    rw (get-insert (Node.service s) node r n.graph_node_to_ros_node, other s) (h s)

number_all-NoService :
    {V : Type 0} (node : Ref → Node) (ros_node : Ref → Result (Option Ref)) (t : Table Ref V)
    (n : Numbering)
    → ((r s : Ref) → node_eq (node r) (Node.service s) ≡ false)
    → NoService n
    → Returns NoService (number_all node ros_node t n)
unfolding number_all
number_all-NoService node ros_node [] n other h = returns h
number_all-NoService node ros_node ((r, v) ∷ t) n other h = then-Returns (ros_node r) (λ found.
    number_all-NoService node ros_node t _ other (number-NoService (node r) found n (other r) h))

module _ (alive : Liveness) (node_alive : Ref → Bool) (w : World) where
  number_nodes-NoService :
      (g : DependencyGraph) → Returns NoService (number_nodes alive node_alive w g)
  unfolding number_nodes get
  number_nodes-NoService g =
      >>=-Returns
        (number_all-NoService Node.publisher _ g.publisher_nodes no_numbers (λ r s. refl)
          (λ s. refl))
        (λ n h.
          >>=-Returns (number_all-NoService Node.subscriber _ g.subscriber_nodes n (λ r s. refl) h)
            (λ n' h'.
              >>=-Returns (number_all-NoService Node.timer _ g.timer_nodes n' (λ r s. refl) h')
                (λ n'' h''.
                  number_all-NoService Node.callback _ g.callback_nodes n'' (λ r s. refl) h'')))

  module _ {F : Type 0} (floats : Floats F) where
    process_edge-service :
        (n : Numbering) (ids : Table Ref ℕ) (s c : Ref) (d : EdgeData) (e : Edges)
        → NoService n
        → Returns (λ _. ⊥) (process_edge floats n ids (Edge.service_callback_invocation s c) d e)
    unfolding process_edge source
    process_edge-service n ids s c d e h =
        then-Returns (expect (median floats (from_unsorted d.latencies))) (λ m. rw (h s) faults)

    process_edges-service :
        (n : Numbering) (ids : Table Ref ℕ) (edges : Table Edge EdgeData) (s c : Ref) (d : EdgeData)
        (e : Edges)
        → NoService n
        → Memᴰ (Edge.service_callback_invocation s c, d) edges
        → Returns (λ _. ⊥) (process_edges floats n ids edges e)
    unfolding process_edges
    process_edges-service n ids [] s c d e h m = absurd (Memᴰ.not-nil m)
    process_edges-service n ids ((edge, d') ∷ rest) s c d e h m = elim (Memᴰ.cases_cons m) [
      | inl first ↦
          >>=-Returns {r = process_edge floats n ids edge d' e}
            (rw (← ap (λ x. x.0) first) (process_edge-service n ids s c d' e h))
            (λ e' impossible. absurd impossible)
      | inr later ↦
          then-Returns (process_edge floats n ids edge d' e)
            (λ e'. process_edges-service n ids rest s c d e' h later)
    ]

    new-service :
        (g : DependencyGraph) (s c : Ref) (d : EdgeData)
        → Memᴰ (Edge.service_callback_invocation s c, d) g.edges
        → Returns (λ _. ⊥) (new floats alive node_alive w g)
    unfolding new
    new-service g s c d m = >>=-Returns (number_nodes-NoService g) (λ n h.
        >>=-Returns (process_edges-service n _ g.edges s c d _ h m)
          (λ e impossible. absurd impossible))

insert-mem :
    {K V : Type 0} ⦃key : Key K⦄ (k : K) (v : V) (t : Table K V) → Memᴰ (k, v) (insert k v t)
unfolding insert
insert-mem k v [] = Memᴰ.head refl
insert-mem ⦃key⦄ k v ((j, u) ∷ t) = elim (Bool-cases (key.same j k)) [
  | inl same ↦ rw same (Memᴰ.head refl)
  | inr other ↦ rw other (Memᴰ.tail (insert-mem k v t))
]

service_edge-mem :
    (node_alive : Ref → Bool) (w : World) (c s : Ref) (t : Time) (g : DependencyGraph)
    → Returns
        (λ (g' : DependencyGraph).
          (d : EdgeData) × Memᴰ (Edge.service_callback_invocation s c, d) g'.edges)
        (process_edge_to_callback node_alive w c (service s) t g)
unfolding process_edge_to_callback use_edge
service_edge-mem node_alive w c s t g =
    >>=-Returns
      {P = λ (edges : Table Edge EdgeData).
        (d : EdgeData) × Memᴰ (Edge.service_callback_invocation s c, d) edges}
      (then-Returns (extend t _ (edge_data (Edge.service_callback_invocation s c) g.edges))
        (λ d. returns (d, insert-mem (Edge.service_callback_invocation s c) d g.edges)))
      (λ edges p. returns p)

-- Once the start of a callback by a service was recorded, the graph for the output is never made from what was
-- recorded: its construction does not return.
pub process_edge_to_callback-new :
    {F : Type 0} (floats : Floats F) (alive : Liveness) (node_alive : Ref → Bool) (w w' : World)
    (c s : Ref) (t : Time) (g g' : DependencyGraph) (x : DisplayAsDot)
    → process_edge_to_callback node_alive w c (service s) t g ≡ ok g'
    → new floats alive node_alive w' g' ≢ ok x
process_edge_to_callback-new floats alive node_alive w w' c s t g g' x started shown =
    let (d, m) = of_Returns (service_edge-mem node_alive w c s t g) started in
    of_Returns (new-service alive node_alive w' floats g' s c d m) shown

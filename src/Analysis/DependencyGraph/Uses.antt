-- ===== src/Analysis/DependencyGraph/Uses.antt =====
-- What the handlers of src/analysis/dependency_graph.rs do with the data of an edge, each time that it is used, and with
-- the delays of a timer, a publisher or a subscriber.
use ros2trace_analyzer.Common.{
  ℤ, ◌+◌, Option, none, some, List, [], ◌∷◌, ◌++◌, length, ◌==◌, Result, ok,
}
use ros2trace_analyzer.Model.PublicationMessage.{Time}
use ros2trace_analyzer.Analysis.Base.{◌>>=◌, ◌>>◌, assert, sub_times, is_empty}
use ros2trace_analyzer.Analysis.Table.{Table, get, insert, or_default}
use ros2trace_analyzer.Analysis.DependencyGraph.Graph.{Edge, EdgeData, edge_key, DependencyGraph}

-- The time since the last one is added to the delays: the same lines for timers, publishers and
-- subscribers. The first has no delay before it.
unfoldable pub next_delay : Time → Option Time → List ℤ → Result (List ℤ)
next_delay event_time none delays = assert (is_empty delays) >> ok delays
next_delay event_time (some previous) delays = do
  delay ← sub_times event_time previous
  ok (delays ++ delay ∷ [])

-- The same, for an edge: the lines that each use of an edge starts with.
unfoldable pub activate : Time → Option Time → EdgeData → Result EdgeData
activate event_time none edge_data = do
  assert (is_empty edge_data.latencies)
  assert (is_empty edge_data.activation_delay)
  ok (record edge_data { last_activation = some event_time })
activate event_time (some previous_activation) edge_data = do
  assert (length edge_data.activation_delay + 1 == length edge_data.latencies)
  activation_delay ← sub_times event_time previous_activation
  ok (record edge_data {
    activation_delay = edge_data.activation_delay ++ activation_delay ∷ [];
    last_activation = some event_time;
  })

abbrev pub no_data : EdgeData
no_data = record { activation_delay = []; latencies = []; last_activation = none }

abbrev pub edge_data : Edge → Table Edge EdgeData → EdgeData
edge_data edge edges = or_default no_data (get edge edges)

-- An edge is activated, and a latency is added to it.
unfoldable pub extend : Time → Result ℤ → EdgeData → Result EdgeData
unfolding activate
extend event_time latency d = do
  activated ← activate event_time d.last_activation d
  latency_ns ← latency
  ok (record activated { latencies = activated.latencies ++ latency_ns ∷ [] })

unfoldable pub use_edge :
    Edge → Time → Result ℤ → Table Edge EdgeData → Result (Table Edge EdgeData)
unfolding extend
use_edge edge event_time latency edges = do
  used ← extend event_time latency (edge_data edge edges)
  ok (insert edge used edges)

abbrev pub on_edges : Edge → Time → Result ℤ → DependencyGraph → Result DependencyGraph
on_edges edge event_time latency g = do
  edges ← use_edge edge event_time latency g.edges
  ok (record g { edges = edges })

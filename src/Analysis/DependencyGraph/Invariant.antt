-- ===== src/Analysis/DependencyGraph/Invariant.antt =====
-- The data of the edges of src/analysis/dependency_graph.rs as summaries of their uses, and the state of the analysis as
-- what follows from the events of a trace.
pub mod Events
use ros2trace_analyzer.Common.{
  ℕ, ℤ, ◌-ℤ◌, is_i64, int_eq, Ref, Bool, true, false, Option, none, some, List, [], ◌∷◌, ◌++◌,
  length, ◌==◌, if◌then◌else◌, ◌≡◌, refl, sym, ap, ◌∙◌, arith, Result, ok, Bool-cases, inl, inr,
}
use ros2trace_analyzer.Model.PublicationMessage.{Time}
use ros2trace_analyzer.Utils.Known.{into_option}
use ros2trace_analyzer.Model.SubscriptionMessage.{get_publication_message}
use ros2trace_analyzer.Model.CallbackInstance.{
  CallbackTrigger, subscription_message, service, timer,
}
use ros2trace_analyzer.Events.Context.{Context}
use ros2trace_analyzer.Events.Processed
use ros2trace_analyzer.Processor.State.{World}
use ros2trace_analyzer.Analysis.Base.{
  ◌>>=◌, ◌>>◌, sub_times, lock, expect, assert, panic_on_some, ThreadId, thread_of, thread_key,
}
use ros2trace_analyzer.Analysis.Returns.{
  Returns, weaken-Returns, returns, fails, faults, >>=-Returns, then-Returns,
}
use ros2trace_analyzer.Analysis.Table.{Key, Table, get, insert, or_default, ref_key}
use ros2trace_analyzer.Analysis.Table.Laws.{get-insert, All, insert-All}
use ros2trace_analyzer.Analysis.DependencyGraph.Graph.{
  Edge, edge_eq, edge_eq_iff, edge_key, EdgeData, DependencyGraph, TimerNode, PublisherNode,
  SubscriberNode, new,
}
use ros2trace_analyzer.Analysis.DependencyGraph.{
  process_timer_invocation, process_edge_to_callback, activate_callback, process_callback_start,
  process_callback_end, process_communication, process_rmw_take, process_publication_in,
  process_publication, process_event, finalize, new_timer, new_publisher, new_subscriber,
  panic_on_other,
}
use ros2trace_analyzer.Analysis.DependencyGraph.Uses.{
  activate, extend, use_edge, edge_data, no_data, on_edges, next_delay,
}
use ros2trace_analyzer.Analysis.DependencyGraph.History.{
  Use, times, last, delays, summary, Fits, extend-summary, extend-Returns,
}
use ros2trace_analyzer.Analysis.DependencyGraph.Trace.{EdgeUse, used, after}

-- The edges are summaries of these uses.
abbrev pub Summarises : Table Edge EdgeData → (Edge → List Use) → Type 0
Summarises edges h = (e : Edge) → edge_data e edges ≡ summary (h e)

insert-Summarises :
    (e : Edge) (t : Time) (latency : ℤ) (edges : Table Edge EdgeData) (h : Edge → List Use)
    → Summarises edges h
    → Summarises (insert e (summary (h e ++ (t, latency) ∷ [])) edges) (used e t latency h)
insert-Summarises e t latency edges h s e' = elim (Bool-cases (edge_eq e e')) [
  | inl same ↦
      rw (
        get-insert e' e (summary (h e ++ (t, latency) ∷ [])) edges,
        same,
        (edge_eq_iff e e').0 same,
      )
  | inr other ↦ rw (get-insert e' e (summary (h e ++ (t, latency) ∷ [])) edges, other, s e')
]

-- Where the data of every edge summarises a history, and the time since the last use of an edge fits into 64 bits,
-- one more use of this edge returns, and the data summarise the same histories with this use added to that of the
-- edge.
pub use_edge-used :
    (e : Edge) (t : Time) (latency : ℤ) (edges : Table Edge EdgeData) (h : Edge → List Use)
    → Summarises edges h
    → Fits (h e) t
    → (edges' : Table Edge EdgeData) × (use_edge e t (ok latency) edges ≡ ok edges')
      × Summarises edges' (used e t latency h)
unfolding use_edge
use_edge-used e t latency edges h s fit = (
  insert e (summary (h e ++ (t, latency) ∷ [])) edges,
  rw (s e, extend-summary (h e) t latency fit),
  insert-Summarises e t latency edges h s,
)

-- The state of the analysis: the uses of its edges, the callbacks that run, and when the nodes woke up.
pub record Follows (h : Edge → List Use) (run : ThreadId → Option Ref) (wake : Ref → Option Time)
    (g : DependencyGraph) : Type 0 where
  pub edges : Summarises g.edges h
  pub running : (thread : ThreadId) → get thread g.running_callbacks ≡ run thread
  pub woken : (node : Ref) → get node g.last_spin_wake_up_time_for_node ≡ wake node

module _ {h : Edge → List Use} {run : ThreadId → Option Ref} {wake : Ref → Option Time} where
  -- An edge is used as it is said to be.
  pub on_edges-Follows :
      {u : Option EdgeUse} (edge : Edge) (t : Time) (latency : Result ℤ) (g : DependencyGraph)
      → Follows h run wake g
      → Returns (λ l. u ≡ some (edge, l)) latency
      → Returns (Follows (after u t h) run wake) (on_edges edge t latency g)
  unfolding use_edge
  on_edges-Follows {u = u} edge t latency g f p =
      let extended : Returns
          (λ d. (l : ℤ) × (u ≡ some (edge, l)) × (d ≡ summary (h edge ++ (t, l) ∷ [])))
          (extend t latency (edge_data edge g.edges)) =
        rw (f.edges edge) (extend-Returns (h edge) t p) in
      >>=-Returns {P = λ edges. Summarises edges (after u t h)}
        (>>=-Returns extended
          (λ d q. returns (rw (q.1, q.2) (insert-Summarises edge t q.0 g.edges h f.edges))))
        (λ edges s. returns (record { edges = s; running = f.running; woken = f.woken }))

  -- The timer itself has no part in it.
  pub process_timer_invocation-Follows :
      (r : Ref) (t : Time) (g : DependencyGraph)
      → Follows h run wake g
      → Returns (Follows h run wake) (process_timer_invocation r t g)
  unfolding process_timer_invocation
  process_timer_invocation-Follows r t g f =
      then-Returns (next_delay t _ _)
        (λ ds. returns (record { edges = f.edges; running = f.running; woken = f.woken }))

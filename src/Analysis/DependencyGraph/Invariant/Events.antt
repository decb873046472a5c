-- ===== src/Analysis/DependencyGraph/Invariant/Events.antt =====
-- After any events, the edges of src/analysis/dependency_graph.rs have the data that these events tell (Trace).
use ros2trace_analyzer.Common.{
  int_eq, Ref, Bool, true, false, Option, none, some, List, [], ◌∷◌, ◌≡◌, refl, sym, ok,
  if◌then◌else◌,
}
use ros2trace_analyzer.Model.PublicationMessage.{Time, get_publication_time}
use ros2trace_analyzer.Utils.ArcWeak.{ArcWeak, get_arc}
use ros2trace_analyzer.Utils.Known.{into_option}
use ros2trace_analyzer.Model.SubscriptionMessage.{get_publication_message}
use ros2trace_analyzer.Model.CallbackInstance.{
  CallbackTrigger, subscription_message, service, timer,
}
use ros2trace_analyzer.Events.Context.{Context}
use ros2trace_analyzer.Events.Processed
use ros2trace_analyzer.Processor.State.{World}
use ros2trace_analyzer.Analysis.Base.{
  sub_times, lock, expect, assert, panic_on_some, ThreadId, thread_of, thread_key,
}
use ros2trace_analyzer.Analysis.Returns.{
  Returns, of_Returns, weaken-Returns, returns, >>=-Returns, then-Returns, expect-Returns,
  lock-Returns, sub_times-Returns,
}
use ros2trace_analyzer.Analysis.Table.{get, ref_key}
use ros2trace_analyzer.Analysis.Table.Laws.{get-insert, get-remove}
use ros2trace_analyzer.Analysis.DependencyGraph.Graph.{Edge, DependencyGraph, new, edge_key}
use ros2trace_analyzer.Analysis.DependencyGraph.{
  wake_up_latency, latency_since, process_edge_to_callback, activate_callback,
  process_callback_start, process_callback_end, process_communication, process_rmw_take,
  process_publication_in, process_publication, process_event, panic_on_other,
}
use ros2trace_analyzer.Analysis.DependencyGraph.Uses.{next_delay, edge_data}
use ros2trace_analyzer.Analysis.EventAnalysis.{process_all, dependency_graph}
use ros2trace_analyzer.Analysis.DependencyGraph.History.{Use, summary}
use ros2trace_analyzer.Analysis.DependencyGraph.Trace.{
  Past, given, running, woken, time_since, wake_up_use, start_use, take_use, publish_use, after,
  uses, reversed,
}
use ros2trace_analyzer.Analysis.DependencyGraph.Invariant.{
  Follows, on_edges-Follows, process_timer_invocation-Follows,
}

latency_since-Returns :
    (t : Time) (o : Option Time) → Returns (λ l. l ≡ time_since t o) (latency_since t o)
latency_since-Returns t none = returns refl
latency_since-Returns t (some wake_up) = sub_times-Returns t wake_up

module _ (node_alive : Ref → Bool) (w : World) {h : Edge → List Use} {run : ThreadId → Option Ref}
    {wake : Ref → Option Time} where
  wake_up_latency-Returns :
      (edge : Edge) (node : Option ArcWeak) (t : Time) (g : DependencyGraph)
      → Follows h run wake g
      → Returns
          (λ l. wake_up_use node_alive w edge node t wake ≡ some (edge, l))
          (wake_up_latency node_alive node t g.last_spin_wake_up_time_for_node)
  unfolding wake_up_latency
  wake_up_latency-Returns edge node t g f = >>=-Returns (expect-Returns node) (λ weak e.
      >>=-Returns (expect-Returns (get_arc node_alive weak)) (λ arc e'.
        weaken-Returns (latency_since-Returns t (get arc g.last_spin_wake_up_time_for_node))
          (λ l e''. rw (e, e', e'', f.woken arc) refl)))

  process_edge_to_callback-Follows :
      (c : Ref) (trigger : CallbackTrigger) (t : Time) (g : DependencyGraph)
      → Follows h run wake g
      → Returns
          (Follows (after (start_use node_alive w c trigger t wake) t h) run wake)
          (process_edge_to_callback node_alive w c trigger t g)
  unfolding process_edge_to_callback
  process_edge_to_callback-Follows c (subscription_message msg) t g f =
      >>=-Returns (lock-Returns w.subscriptions msg) (λ message e.
        >>=-Returns (expect-Returns (into_option message.subscriber)) (λ s e'.
          on_edges-Follows _ t _ g f (
            >>=-Returns (expect-Returns (into_option message.rmw_receive_time)) (λ received e''.
              weaken-Returns (sub_times-Returns t received) (λ l d. rw (e, e', e'', d) refl)))))
  process_edge_to_callback-Follows c (timer r) t g f =
      >>=-Returns (process_timer_invocation-Follows r t g f) (λ g' f'.
        on_edges-Follows _ t _ g' f' (
          >>=-Returns (lock-Returns w.timers r)
            (λ timer e. rw e (wake_up_latency-Returns _ (into_option timer.node) t g' f'))))
  process_edge_to_callback-Follows c (service r) t g f = on_edges-Follows _ t _ g f (
      >>=-Returns (lock-Returns w.services r)
        (λ service e. rw e (wake_up_latency-Returns _ (into_option service.node) t g f)))

  process_communication-Follows :
      (subscriber : Ref) (publication : Option Ref) (t : Time) (g : DependencyGraph)
      → Follows h run wake g
      → Returns
          (Follows (after (take_use node_alive w subscriber publication t) t h) run wake)
          (process_communication w subscriber publication t g)
  unfolding process_communication
  process_communication-Follows subscriber none t g f = returns f
  process_communication-Follows subscriber (some publication) t g f =
      >>=-Returns (lock-Returns w.publications publication) (λ m e.
        >>=-Returns (expect-Returns (into_option m.publisher)) (λ publisher e'.
          on_edges-Follows _ t _ g f (
            >>=-Returns (expect-Returns (get_publication_time m)) (λ sent e''.
              weaken-Returns (sub_times-Returns t sent) (λ l d. rw (e, e', e'', d) refl)))))

  process_publication_in-Follows :
      (publisher : Ref) (instance : Option Ref) (t : Time) (g : DependencyGraph)
      → Follows h run wake g
      → Returns
          (Follows (after (publish_use node_alive w publisher instance t) t h) run wake)
          (process_publication_in w publisher instance t g)
  unfolding process_publication_in
  process_publication_in-Follows publisher none t g f = returns f
  process_publication_in-Follows publisher (some r) t g f =
      >>=-Returns (lock-Returns w.instances r) (λ i e.
        on_edges-Follows _ t _ g f
          (weaken-Returns (sub_times-Returns t i.start_time) (λ l d. rw (e, d) refl)))

-- The state that follows from the events.
abbrev FollowsAll : (Ref → Bool) → Past → DependencyGraph → Type 0
FollowsAll node_alive past = Follows (uses node_alive past) (running past) (woken past)

module _ (node_alive : Ref → Bool) (w : World) (past : Past) where
  event-FollowsAll :
      (c : Context) (t : Time) (e : Processed.Event) (g : DependencyGraph)
      → FollowsAll node_alive past g
      → Returns
          (FollowsAll node_alive ((w, record { context = c; time = t; event = e }) ∷ past))
          (process_event node_alive w (record { context = c; time = t; event = e }) g)
  unfolding process_event process_callback_start process_callback_end process_rmw_take
      process_publication
  event-FollowsAll c t (Processed.ros2 (Processed.Ros2.callback_start x)) g f =
      then-Returns (panic_on_some (get (thread_of c) g.running_callbacks)) (λ u.
        >>=-Returns (lock-Returns w.instances x.callback) (λ i e.
          then-Returns (activate_callback node_alive t i.start_time _ _) (λ n.
            weaken-Returns
              (process_edge_to_callback-Follows node_alive w i.callback i.trigger t _ (record {
                edges = f.edges;
                running = λ thread.
                    rw
                      (
                        get-insert thread (thread_of c) x.callback g.running_callbacks,
                        f.running thread,
                      )
                      refl;
                woken = f.woken;
              }))
              (λ g' f'. rw e f'))))
  event-FollowsAll c t (Processed.ros2 (Processed.Ros2.callback_end x)) g f =
      then-Returns (panic_on_other x.callback (get (thread_of c) g.running_callbacks)) (λ u.
        then-Returns (lock w.instances x.callback) (λ i.
          then-Returns (expect (get i.callback g.callback_nodes)) (λ n.
            then-Returns (expect n.last_activation) (λ start. then-Returns (sub_times t start) (λ d.
              then-Returns (expect (into_option i.end_time)) (λ end.
                then-Returns (assert (int_eq i.start_time start)) (λ v.
                  then-Returns (assert (int_eq end t)) (λ y. returns (record {
                    edges = f.edges;
                    running = λ thread.
                        rw (get-remove thread (thread_of c) g.running_callbacks, f.running thread)
                          refl;
                    woken = f.woken;
                  })))))))))
  event-FollowsAll c t (Processed.ros2 (Processed.Ros2.rmw_take x)) g f = go x.taken
    where
      go :
          (taken : Bool)
          → Returns
              (Follows
                (after
                  (if taken
                    then given (w.subscriptions.cell x.message) (λ m.
                      given
                        (into_option m.subscriber)
                        (λ s. take_use node_alive w s (get_publication_message m) t))
                    else none)
                  t
                  (uses node_alive past))
                (running past)
                (woken past))
              (process_rmw_take w x.message taken t g)
      go false = returns f
      go true = >>=-Returns (lock-Returns w.subscriptions x.message) (λ m e.
          >>=-Returns (expect-Returns (into_option m.subscriber)) (λ s e'.
            then-Returns (next_delay t _ _) (λ ds.
              weaken-Returns
                (process_communication-Follows node_alive w s (get_publication_message m) t _
                  (record { edges = f.edges; running = f.running; woken = f.woken }))
                (λ g' f'. rw (e, e') f'))))
  event-FollowsAll c t (Processed.ros2 (Processed.Ros2.rmw_publish x)) g f =
      >>=-Returns (lock-Returns w.publications x.message) (λ m e.
        >>=-Returns (expect-Returns (into_option m.publisher)) (λ publisher e'.
          then-Returns (next_delay t _ _) (λ ds.
            weaken-Returns
              (process_publication_in-Follows node_alive w publisher
                (get (thread_of c) g.running_callbacks) t _
                (record { edges = f.edges; running = f.running; woken = f.woken }))
              (λ g' f'. rw (e, e', sym (f.running (thread_of c))) f'))))
  event-FollowsAll c t (Processed.ros2 (Processed.Ros2.rcl_node_init x)) g f =
      returns (record { edges = f.edges; running = f.running; woken = f.woken })
  event-FollowsAll c t (Processed.r2r (Processed.R2r.spin_wake x)) g f = returns (record {
    edges = f.edges;
    running = f.running;
    woken =
        λ node. rw (get-insert node x.node t g.last_spin_wake_up_time_for_node, f.woken node) refl;
  })
  event-FollowsAll c t (Processed.r2r (Processed.R2r.spin_end x)) g f =
      then-Returns (assert _) (λ u. returns f)
  event-FollowsAll c t _ g f = returns f

process_all-FollowsAll :
    (node_alive : Ref → Bool) (events past : Past) (g : DependencyGraph)
    → FollowsAll node_alive past g
    → Returns
        (FollowsAll node_alive (reversed events past))
        (process_all (dependency_graph node_alive) events g)
unfolding process_all
process_all-FollowsAll node_alive [] past g f = returns f
process_all-FollowsAll node_alive ((w, x) ∷ events) past g f =
    >>=-Returns (event-FollowsAll node_alive w past x.context x.time x.event g f)
      (λ g' f'. process_all-FollowsAll node_alive events ((w, x) ∷ past) g' f')

new-FollowsAll : (node_alive : Ref → Bool) → FollowsAll node_alive [] new
unfolding get
new-FollowsAll node_alive = record {
  edges = λ e. refl;
  running = λ thread. refl;
  woken = λ node. refl;
}

-- When the dependency analysis gets through events, each seen in some state of the processor, the data of every edge is
-- the summary of the uses that the events tell: which edge each event uses, between which objects, and how long after
-- the publication or the receipt of its message, the start of the callback that runs, or the last wake-up of the node.
pub process_all-uses :
    (node_alive : Ref → Bool) (events : List (World × Processed.FullEvent)) (g : DependencyGraph)
    → process_all (dependency_graph node_alive) events new ≡ ok g
    → (edge : Edge) → edge_data edge g.edges ≡ summary (uses node_alive (reversed events []) edge)
process_all-uses node_alive events g e =
    (of_Returns (process_all-FollowsAll node_alive events [] new (new-FollowsAll node_alive))
      e).edges

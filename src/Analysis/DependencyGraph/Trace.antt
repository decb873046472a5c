-- ===== src/Analysis/DependencyGraph/Trace.antt =====
-- Which edge each event of a trace uses, and how late: read off the events and the objects that they refer to, for the
-- edges of src/analysis/dependency_graph.rs. The events are listed from the last one on.
use ros2trace_analyzer.Common.{
  ℤ, ◌-ℤ◌, i64_max, Ref, ◌==◌, Bool, Option, none, some, List, [], ◌∷◌, ◌++◌, if◌then◌else◌,
}
use ros2trace_analyzer.Utils.ArcWeak.{ArcWeak, get_arc}
use ros2trace_analyzer.Utils.Known.{into_option}
use ros2trace_analyzer.Model.PublicationMessage.{Time, get_publication_time}
use ros2trace_analyzer.Model.SubscriptionMessage.{get_publication_message}
use ros2trace_analyzer.Model.CallbackInstance.{
  CallbackTrigger, subscription_message, service, timer,
}
use ros2trace_analyzer.Events.Context.{Context}
use ros2trace_analyzer.Events.Processed
use ros2trace_analyzer.Processor.State.{World}
use ros2trace_analyzer.Analysis.Base.{ThreadId, thread_of, thread_eq}
use ros2trace_analyzer.Analysis.DependencyGraph.Graph.{Edge, edge_eq}
use ros2trace_analyzer.Analysis.DependencyGraph.History.{Use}

abbrev pub Past : Type 0
Past = List (World × Processed.FullEvent)

abbrev pub given : {A B : Type 0} → Option A → (A → Option B) → Option B
given none f = none
given (some a) f = f a

-- The instance that a thread runs: the one that started there last, unless it has ended.
abbrev pub ran : Context → Processed.Event → ThreadId → Option Ref → Option Ref
ran c (Processed.ros2 (Processed.Ros2.callback_start x)) thread before =
    if thread_eq (thread_of c) thread then some x.callback else before
ran c (Processed.ros2 (Processed.Ros2.callback_end x)) thread before =
    if thread_eq (thread_of c) thread then none else before
ran c _ thread before = before

abbrev pub running : Past → ThreadId → Option Ref
running [] thread = none
running ((w, x) ∷ past) thread = ran x.context x.event thread (running past thread)

-- When a node woke up last.
abbrev pub woke : Time → Processed.Event → Ref → Option Time → Option Time
woke t (Processed.r2r (Processed.R2r.spin_wake x)) node before =
    if x.node == node then some t else before
woke t _ node before = before

abbrev pub woken : Past → Ref → Option Time
woken [] node = none
woken ((w, x) ∷ past) node = woke x.time x.event node (woken past node)

-- An edge, with the latency of its use.
abbrev pub EdgeUse : Type 0
EdgeUse = Edge × ℤ

-- `LATENCY_INVALID` where the node never woke up.
abbrev pub time_since : Time → Option Time → ℤ
time_since t none = i64_max
time_since t (some wake_up) = t -ℤ wake_up

module _ (node_alive : Ref → Bool) (w : World) where
  abbrev pub wake_up_use : Edge → Option ArcWeak → Time → (Ref → Option Time) → Option EdgeUse
  wake_up_use edge node t wake =
      given node
        (λ weak. given (get_arc node_alive weak) (λ arc. some (edge, time_since t (wake arc))))

  -- A callback starts: from its message, its timer or its service.
  abbrev pub start_use : Ref → CallbackTrigger → Time → (Ref → Option Time) → Option EdgeUse
  start_use c (subscription_message m) t wake = given (w.subscriptions.cell m) (λ message.
      given (into_option message.subscriber) (λ s.
        given (into_option message.rmw_receive_time)
          (λ received. some (Edge.subscriber_callback_invocation s c, t -ℤ received))))
  start_use c (timer r) t wake =
      given (w.timers.cell r)
        (λ timer. wake_up_use (Edge.timer_callback_invocation r c) (into_option timer.node) t wake)
  start_use c (service r) t wake = given (w.services.cell r) (λ service.
      wake_up_use (Edge.service_callback_invocation r c) (into_option service.node) t wake)

  -- A message is taken: from the publisher of its publication.
  abbrev pub take_use : Ref → Option Ref → Time → Option EdgeUse
  take_use s publication t = given publication (λ p. given (w.publications.cell p) (λ m.
      given (into_option m.publisher) (λ publisher.
        given (get_publication_time m)
          (λ sent. some (Edge.publisher_subscriber_communication publisher s, t -ℤ sent)))))

  -- A message is published: by the callback that runs.
  abbrev pub publish_use : Ref → Option Ref → Time → Option EdgeUse
  publish_use publisher instance t = given instance (λ r.
      given (w.instances.cell r)
        (λ i. some (Edge.publication_in_callback publisher i.callback, t -ℤ i.start_time)))

  abbrev pub event_use : Past → Context → Time → Processed.Event → Option EdgeUse
  event_use past c t (Processed.ros2 (Processed.Ros2.callback_start x)) =
      given (w.instances.cell x.callback) (λ i. start_use i.callback i.trigger t (woken past))
  event_use past c t (Processed.ros2 (Processed.Ros2.rmw_take x)) =
      if x.taken
      then given (w.subscriptions.cell x.message)
          (λ m. given (into_option m.subscriber) (λ s. take_use s (get_publication_message m) t))
      else none
  event_use past c t (Processed.ros2 (Processed.Ros2.rmw_publish x)) =
      given (w.publications.cell x.message) (λ m.
        given (into_option m.publisher)
          (λ publisher. publish_use publisher (running past (thread_of c)) t))
  event_use past c t _ = none

-- One more use of one edge.
abbrev pub used : Edge → Time → ℤ → (Edge → List Use) → Edge → List Use
used e t latency h e' = if edge_eq e e' then h e' ++ (t, latency) ∷ [] else h e'

abbrev pub after : Option EdgeUse → Time → (Edge → List Use) → Edge → List Use
after none t h = h
after (some (edge, latency)) t h = used edge t latency h

-- The uses of each edge, the first one first.
abbrev pub uses : (Ref → Bool) → Past → Edge → List Use
uses node_alive [] = λ edge. []
uses node_alive ((w, x) ∷ past) =
    after (event_use node_alive w past x.context x.time x.event) x.time (uses node_alive past)

-- The events of a trace from the last one on, in front of earlier ones.
abbrev pub reversed : Past → Past → Past
reversed [] past = past
reversed (x ∷ events) past = reversed events (x ∷ past)

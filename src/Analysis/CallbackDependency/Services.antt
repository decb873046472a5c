-- ===== src/Analysis/CallbackDependency/Services.antt =====
-- What src/analysis/callback_dependency.rs does with a callback that has no node, such as that of a service.
use mathlib.Core.Path.{subst}
use mathlib.Core.List.{Memᴰ}
use mathlib.Core.List.Memᴰ
use ros2trace_analyzer.Common.{
  ℕ, Ref, Bool, false, String, str_eq, str_eq_iff, none, List, [], ◌∷◌, ◌++◌, length, Result, ok,
  ◌≡◌, ◌≢◌, ap, ◌⊎◌, refl, inl, inr, Bool-cases, Option-cases, ◌==◌, if◌then◌else◌, arith,
}
use ros2trace_analyzer.Processor.State.{World}
use ros2trace_analyzer.Analysis.Base.{is_empty}
use ros2trace_analyzer.Analysis.Returns.{
  Returns, returns, faults, bind-Returns, >>=-Returns, then-Returns, of_Returns,
}
use ros2trace_analyzer.Analysis.Table.{get, push, contains, ref_key}
use ros2trace_analyzer.Analysis.Table.Laws.{get-insert, series, series-push}
use ros2trace_analyzer.Analysis.CallbackDependency.{
  Nodes, no_nodes, CallbackDependency, topic_key, add_node, add_timer_nodes, add_message_nodes,
  topic_of_callback, topic_of_publisher, edges_to, edges_to_topic, all_edges,
  construct_callback_graph,
}

abbrev HasNoNode : Ref → Nodes → Type 0
HasNoNode c n = get c n.callback_to_node ≡ none

-- Some node waits for the topic.
abbrev IsAwaited : String → Nodes → Type 0
IsAwaited t n = is_empty (series t n.topic_to_nodes) ≡ false

add_node-HasNoNode :
    (c d : Ref) (n : Nodes) → (d == c) ≡ false → HasNoNode c n → HasNoNode c (add_node d n)
unfolding add_node
add_node-HasNoNode c d n other none_yet =
    ground (arith, get-insert c d (length n.nodes) n.callback_to_node)

add_timer_nodes-HasNoNode :
    (c : Ref) (cs : List Ref) (n : Nodes)
    → contains c cs ≡ false
    → HasNoNode c n
    → HasNoNode c (add_timer_nodes cs n)
unfolding add_timer_nodes add_node contains
add_timer_nodes-HasNoNode c [] n absent h = h
add_timer_nodes-HasNoNode c (d ∷ cs) n absent h =
    add_timer_nodes-HasNoNode c cs _ (ground arith) (add_node-HasNoNode c d n (ground arith) h)

ok-same : {A : Type 0} {r : Result A} {a b : A} → r ≡ ok a → r ≡ ok b → b ≡ a
ok-same {a} {b} p q = cc (p, q)

pair_ext : {A B : Type 0} {a a' : A} {b b' : B} → a' ≡ a → b ≡ b' → Path (A × B) (a, b) (a', b')
pair_ext p q = cc (p, q)

is_empty-append : {A : Type 0} (xs : List A) (x : A) → is_empty (xs ++ x ∷ []) ≡ false
is_empty-append [] x = refl
is_empty-append (y ∷ xs) x = refl

push-awaited :
    (t topic : String) (n : Nodes) (id : ℕ)
    → is_empty (series t (push topic id n.topic_to_nodes))
      ≡ (if str_eq topic t then false else is_empty (series t n.topic_to_nodes))
push-awaited t topic n id = elim (Bool-cases (str_eq topic t)) [
  | inl same ↦
      rw (series-push t topic id n.topic_to_nodes, same)
        (is_empty-append (series t n.topic_to_nodes) id)
  | inr other ↦ rw (series-push t topic id n.topic_to_nodes, other)
]

module _ (alive : Ref → Bool) (w : World) (c : Ref) (t : String) where
  -- The callback has no node, but a node waits for the topic.
  abbrev Misses : Nodes → Type 0
  Misses n = HasNoNode c n × IsAwaited t n

  add_message_nodes-awaited :
      (cs : List Ref) (n : Nodes)
      → contains c cs ≡ false
      → HasNoNode c n
      → IsAwaited t n ⊎ ((d : Ref) × Memᴰ d cs × (topic_of_callback alive w d ≡ ok t))
      → Returns Misses (add_message_nodes alive w cs n)
  unfolding add_message_nodes add_node contains
  add_message_nodes-awaited [] n absent h (inl awaited) = returns (h, awaited)
  add_message_nodes-awaited [] n absent h (inr (d, m, e)) = absurd (Memᴰ.not-nil m)
  add_message_nodes-awaited (d ∷ cs) n absent h listener =
      bind-Returns (topic_of_callback alive w d) (λ topic e.
        add_message_nodes-awaited cs _ (ground arith) (add_node-HasNoNode c d n (ground arith) h)
          (elim listener [
            | inl awaited ↦ inl (ground (arith, push-awaited t topic n (length n.nodes)))
            | inr (d', m, e') ↦ elim (Memᴰ.cases_cons m) [
              | inl first ↦ inl (
                  rw (
                    push-awaited t topic n (length n.nodes),
                    (str_eq_iff topic t).1 (ok-same (cc (e', first)) e),
                  ))
              | inr later ↦ inr (d', later, e')
            ]
          ]))

  edges_to-Misses :
      (n : Nodes) (is : List ℕ)
      → HasNoNode c n
      → is_empty is ≡ false
      → Returns (λ _. ⊥) (edges_to alive w n.callback_to_node c is)
  unfolding edges_to
  edges_to-Misses n [] h e = absurd (cc e)
  edges_to-Misses n (i ∷ is) h e = rw h faults

  edges_to_topic-Misses :
      (n : Nodes)
      → Misses n
      → Returns (λ _. ⊥) (edges_to_topic alive w n.callback_to_node c (get t n.topic_to_nodes))
  unfolding edges_to_topic
  edges_to_topic-Misses n (h, awaited) = elim (Option-cases (get t n.topic_to_nodes)) [
    | inl missing ↦ absurd (ground arith)
    | inr (is, found) ↦ rw found (edges_to-Misses n is h (rw found at awaited))
  ]

  all_edges-Misses :
      (n : Nodes) (p : Ref) (deps : List (Ref × Ref))
      → Misses n
      → Memᴰ (p, c) deps
      → topic_of_publisher alive w p ≡ ok t
      → Returns (λ _. ⊥) (all_edges alive w n deps)
  unfolding all_edges
  all_edges-Misses n p [] h m e = absurd (Memᴰ.not-nil m)
  all_edges-Misses n p ((q, d) ∷ deps) h m e = elim (Memᴰ.cases_cons m) [
    | inl first ↦ bind-Returns (topic_of_publisher alive w q) (λ topic e'.
        >>=-Returns
          (subst
            (λ (u : String × Ref).
              Returns (λ _. ⊥)
                (edges_to_topic alive w n.callback_to_node u.1 (get u.0 n.topic_to_nodes)))
            (pair_ext (ok-same e (cc (e', first))) (ap (λ x. x.1) first))
            (edges_to_topic-Misses n h))
          (λ edges impossible. absurd impossible))
    | inr later ↦ then-Returns (topic_of_publisher alive w q) (λ topic.
        then-Returns (edges_to_topic alive w n.callback_to_node d (get topic n.topic_to_nodes))
          (λ edges.
            >>=-Returns (all_edges-Misses n p deps h later e) (λ x impossible. absurd impossible)))
  ]

  -- The graph is never made where a callback that was registered neither for a timer nor for a subscription, such as
  -- that of a service, published on a topic for which a message-driven callback waits.
  pub construct_callback_graph-service :
      (s s' : CallbackDependency) (p d : Ref)
      → contains c s.timer_driven_callbacks ≡ false
      → contains c s.message_driven_callbacks ≡ false
      → Memᴰ (p, c) s.publication_in_callback.dependency
      → topic_of_publisher alive w p ≡ ok t
      → Memᴰ d s.message_driven_callbacks
      → topic_of_callback alive w d ≡ ok t
      → construct_callback_graph alive w s ≢ ok s'
  unfolding construct_callback_graph get
  construct_callback_graph-service s s' p d no_timer no_message published e awaits e' made =
      of_Returns {P = λ _. ⊥}
        (>>=-Returns
          (add_message_nodes-awaited s.message_driven_callbacks _ no_message
            (add_timer_nodes-HasNoNode c s.timer_driven_callbacks no_nodes no_timer refl)
            (inr (d, awaits, e')))
          (λ n misses.
            >>=-Returns
              (all_edges-Misses n p s.publication_in_callback.dependency misses published e)
              (λ edges impossible. absurd impossible)))
        made

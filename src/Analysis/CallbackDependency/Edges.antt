-- ===== src/Analysis/CallbackDependency/Edges.antt =====
-- What the edges of the graph of src/analysis/callback_dependency.rs stand for.
use mathlib.Core.List.{Memᴰ}
use mathlib.Core.List.Memᴰ
use mathlib.Core.Path.{subst}
use mathlib.Core.Option.{some_inj}
use ros2trace_analyzer.Common.{
  ℕ, Ref, Bool, String, str_eq, str_eq_iff, Option, none, some, List, [], ◌∷◌, ◌++◌, length,
  get_elem?, get_elem?-append, get_elem?-length, ok, ◌≡◌, refl, inl, inr, Bool-cases, ==_iff, arith,
  Option-cases,
}
use ros2trace_analyzer.Processor.State.{World}
use ros2trace_analyzer.Analysis.Base.{expect}
use ros2trace_analyzer.Analysis.Returns.{Returns, returns, bind-Returns, >>=-Returns, of_Returns}
use ros2trace_analyzer.Analysis.Table.{get, push, ref_key}
use ros2trace_analyzer.Analysis.Table.Laws.{get-insert, series, series-push}
use ros2trace_analyzer.Analysis.CallbackDependency.{
  Nodes, no_nodes, Graph, CallbackDependency, topic_key, add_node, add_timer_nodes,
  add_message_nodes, topic_of_callback, topic_of_publisher, edges_to, edges_to_topic, all_edges,
  construct_callback_graph,
}

module _ (alive : Ref → Bool) (w : World) where
  -- The maps lead to nodes: that of the callback, and those of callbacks that wait for the topic.
  record Agrees (n : Nodes) : Type 0 where
    pub callbacks :
        (c : Ref) (i : ℕ) → get c n.callback_to_node ≡ some i → get_elem? n.nodes i ≡ some c
    pub topics :
        (t : String) (i : ℕ)
        → Memᴰ i (series t n.topic_to_nodes)
        → (c : Ref) × (get_elem? n.nodes i ≡ some c) × (topic_of_callback alive w c ≡ ok t)

  no_nodes-Agrees : Agrees no_nodes
  unfolding get
  no_nodes-Agrees = record { callbacks = λ c i e. cc; topics = λ t i m. absurd (Memᴰ.not-nil m) }

  add_node-callbacks :
      (c : Ref) (n : Nodes)
      → Agrees n
      → (d : Ref) (i : ℕ) → get d (add_node c n).callback_to_node ≡ some i
      → get_elem? (add_node c n).nodes i ≡ some d
  unfolding add_node
  add_node-callbacks c n a d i e = grind (
    arith,
    get-insert d c (length n.nodes) n.callback_to_node,
    ==_iff c d,
    get_elem?-length n.nodes c,
    get_elem?-append n.nodes (c ∷ []) i {a = d},
    a.callbacks d i,
  )

  timer_node-Agrees :
      (c : Ref) (n : Nodes) (s : List ℕ) → Agrees n → Agrees (record (add_node c n) { sources = s })
  unfolding add_node
  timer_node-Agrees c n s a = record {
    callbacks = add_node-callbacks c n a;
    topics =
        λ t i m. let (d, p, q) = a.topics t i m in (d, get_elem?-append n.nodes (c ∷ []) i p, q);
  }

  add_timer_nodes-Agrees : (cs : List Ref) (n : Nodes) → Agrees n → Agrees (add_timer_nodes cs n)
  unfolding add_timer_nodes
  add_timer_nodes-Agrees [] n a = a
  add_timer_nodes-Agrees (c ∷ cs) n a = add_timer_nodes-Agrees cs _ (timer_node-Agrees c n _ a)

  message_node-topics :
      (c : Ref) (n : Nodes) (topic : String)
      → Agrees n
      → topic_of_callback alive w c ≡ ok topic
      → (t : String) (i : ℕ) → Memᴰ i (series t (push topic (length n.nodes) n.topic_to_nodes))
      → (d : Ref) × (get_elem? (n.nodes ++ c ∷ []) i ≡ some d)
        × (topic_of_callback alive w d ≡ ok t)
  message_node-topics c n topic a e t i m = elim (Bool-cases (str_eq topic t)) [
    | inl same ↦
        elim (Memᴰ.append_cases (series t n.topic_to_nodes)
          (rw (series-push t topic (length n.nodes) n.topic_to_nodes, same) at m)) [
            | inl old ↦
                let (d, p, q) = a.topics t i old in (d, get_elem?-append n.nodes (c ∷ []) i p, q)
            | inr new ↦ (
              c,
              rw (Memᴰ.eq_of_singleton new) (get_elem?-length n.nodes c),
              cc ((str_eq_iff topic t).0 same),
            )
          ]
    | inr other ↦
        let (d, p, q) =
          a.topics t i (rw (series-push t topic (length n.nodes) n.topic_to_nodes, other) at m) in
        (d, get_elem?-append n.nodes (c ∷ []) i p, q)
  ]

  add_message_nodes-Agrees :
      (cs : List Ref) (n : Nodes) → Agrees n → Returns Agrees (add_message_nodes alive w cs n)
  unfolding add_message_nodes add_node
  add_message_nodes-Agrees [] n a = returns a
  add_message_nodes-Agrees (c ∷ cs) n a = bind-Returns (topic_of_callback alive w c) (λ topic e.
      add_message_nodes-Agrees cs _ (record {
        callbacks = add_node-callbacks c n a;
        topics = message_node-topics c n topic a e;
      }))

  -- A pair of positions of nodes: the first is the node of a callback that published with a publisher, and the
  -- callback of the second waits for the topic of this publisher.
  pub record JoinsByTopic (nodes : List Ref) (dependency : List (Ref × Ref)) (x : ℕ × ℕ)
      : Type 0 where
    pub publisher : Ref
    pub callback : Ref
    pub listener : Ref
    pub topic : String
    pub published : Memᴰ (publisher, callback) dependency
    pub source : get_elem? nodes x.0 ≡ some callback
    pub target : get_elem? nodes x.1 ≡ some listener
    pub publisher_topic : topic_of_publisher alive w publisher ≡ ok topic
    pub listener_topic : topic_of_callback alive w listener ≡ ok topic

  abbrev pub AllJoin : List Ref → List (Ref × Ref) → List (ℕ × ℕ) → Type 0
  AllJoin nodes dependency edges = (x : ℕ × ℕ) → Memᴰ x edges → JoinsByTopic nodes dependency x

  expect-known : {A : Type 0} {o : Option A} {x : A} → expect o ≡ ok x → o ≡ some x
  expect-known {o = none} e = cc
  expect-known {o = some y} e = cc

  edges_to-Returns :
      (n : Nodes) (p c : Ref) (t : String) (deps : List (Ref × Ref)) (is : List ℕ)
      → Agrees n
      → Memᴰ (p, c) deps
      → topic_of_publisher alive w p ≡ ok t
      → ((i : ℕ)
          → Memᴰ i is
          → (d : Ref) × (get_elem? n.nodes i ≡ some d) × (topic_of_callback alive w d ≡ ok t))
      → Returns (AllJoin n.nodes deps) (edges_to alive w n.callback_to_node c is)
  unfolding edges_to
  edges_to-Returns n p c t deps [] a m e listeners = returns (λ x y. absurd (Memᴰ.not-nil y))
  edges_to-Returns n p c t deps (i ∷ is) a m e listeners =
      bind-Returns (expect (get c n.callback_to_node)) (λ j known.
        >>=-Returns (edges_to-Returns n p c t deps is a m e (λ k q. listeners k (Memᴰ.tail q)))
          (λ edges all. returns (λ x y. elim (Memᴰ.cases_cons y) [
            | inl first ↦ rw first (
                let (d, p', q) = listeners i (Memᴰ.head refl) in
                record {
                  publisher = p;
                  callback = c;
                  listener = d;
                  topic = t;
                  published = m;
                  source = a.callbacks c j (expect-known known);
                  target = p';
                  publisher_topic = e;
                  listener_topic = q;
                })
            | inr later ↦ all x later
          ])))

  weaken-AllJoin :
      (nodes : List Ref) (d : Ref × Ref) (deps : List (Ref × Ref)) (edges : List (ℕ × ℕ))
      → AllJoin nodes deps edges
      → AllJoin nodes (d ∷ deps) edges
  weaken-AllJoin nodes d deps edges all x m =
      let j = all x m in
      record {
        publisher = j.publisher;
        callback = j.callback;
        listener = j.listener;
        topic = j.topic;
        published = Memᴰ.tail j.published;
        source = j.source;
        target = j.target;
        publisher_topic = j.publisher_topic;
        listener_topic = j.listener_topic;
      }

  edges_to_topic-Returns :
      (n : Nodes) (p c : Ref) (t : String) (deps : List (Ref × Ref))
      → Agrees n
      → Memᴰ (p, c) deps
      → topic_of_publisher alive w p ≡ ok t
      → Returns
          (AllJoin n.nodes deps)
          (edges_to_topic alive w n.callback_to_node c (get t n.topic_to_nodes))
  unfolding edges_to_topic
  edges_to_topic-Returns n p c t deps a m e = elim (Option-cases (get t n.topic_to_nodes)) [
    | inl missing ↦ rw missing (returns (λ x y. absurd (Memᴰ.not-nil y)))
    | inr (is, found) ↦
        rw found (edges_to-Returns n p c t deps is a m e (λ i q. a.topics t i (rw found q)))
  ]

  all_edges-Returns :
      (n : Nodes) (deps : List (Ref × Ref))
      → Agrees n
      → Returns (AllJoin n.nodes deps) (all_edges alive w n deps)
  unfolding all_edges
  all_edges-Returns n [] a = returns (λ x y. absurd (Memᴰ.not-nil y))
  all_edges-Returns n ((p, c) ∷ deps) a = bind-Returns (topic_of_publisher alive w p) (λ t e.
      >>=-Returns (edges_to_topic-Returns n p c t ((p, c) ∷ deps) a (Memᴰ.head refl) e)
        (λ edges all. >>=-Returns (all_edges-Returns n deps a) (λ later all'. returns (λ x m.
          elim (Memᴰ.append_cases edges m) [
            | inl q ↦ all x q
            | inr q ↦ weaken-AllJoin n.nodes (p, c) deps later all' x q
          ]))))

  construct-Returns :
      (s : CallbackDependency)
      → Returns
          (λ (s' : CallbackDependency).
            (g : Graph)
            → s'.graph ≡ some g
            → AllJoin g.nodes s.publication_in_callback.dependency g.edges)
          (construct_callback_graph alive w s)
  unfolding construct_callback_graph
  construct-Returns s =
      >>=-Returns
        (add_message_nodes-Agrees s.message_driven_callbacks _
          (add_timer_nodes-Agrees s.timer_driven_callbacks no_nodes no_nodes-Agrees))
        (λ n a.
          >>=-Returns (all_edges-Returns n s.publication_in_callback.dependency a) (λ edges all.
            returns (λ g q.
              subst (λ (h : Graph). AllJoin h.nodes s.publication_in_callback.dependency h.edges)
                (some_inj.0 q) all)))

  -- Every edge of the graph that is made joins the node of a callback that published on a topic to the node of a
  -- callback that waits for this topic.
  pub construct_callback_graph-JoinsByTopic :
      (s s' : CallbackDependency) (g : Graph)
      → construct_callback_graph alive w s ≡ ok s'
      → s'.graph ≡ some g
      → (x : ℕ × ℕ) → Memᴰ x g.edges
      → JoinsByTopic g.nodes s.publication_in_callback.dependency x
  unfolding construct_callback_graph
  construct_callback_graph-JoinsByTopic s s' g e q x m = of_Returns (construct-Returns s) e g q x m

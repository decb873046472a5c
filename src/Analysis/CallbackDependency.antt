-- ===== src/Analysis/CallbackDependency.antt =====
-- src/analysis/callback_dependency.rs: the graph of the callbacks that are driven by timers and by messages,
-- with an edge from a callback to those that wait for a topic on which it publishes.
pub mod Edges
pub mod Services
use ros2trace_analyzer.Common.{
  ℕ, Ref, Bool, String, str_eq, str_eq_iff, Option, none, some, List, [], ◌∷◌, ◌++◌, length, Result,
  ok, fault, panic,
}
use ros2trace_analyzer.Utils.ArcWeak.{ArcWeak, get_arc}
use ros2trace_analyzer.Utils.Known.{into_option}
use ros2trace_analyzer.Model.Callback.{Callback, CallbackCaller, CallbackType, callback_type}
use ros2trace_analyzer.Events.Processed
use ros2trace_analyzer.Processor.State.{World}
use ros2trace_analyzer.Analysis.Base.{◌>>=◌, ◌>>◌, expect, lock}
use ros2trace_analyzer.Analysis.Table.{Key, Table, get, insert, push, ref_key}
use ros2trace_analyzer.Analysis.PublicationInCallback

-- A node of the graph is its callback.
pub record Graph : Type 0 where
  pub nodes : List Ref
  pub edges : List (ℕ × ℕ)
  pub sources : List ℕ

pub record CallbackDependency : Type 0 where
  pub timer_driven_callbacks : List Ref
  pub message_driven_callbacks : List Ref
  pub publication_in_callback : PublicationInCallback.PublicationInCallback
  pub graph : Option Graph

abbrev pub new : CallbackDependency
new = record {
  timer_driven_callbacks = [];
  message_driven_callbacks = [];
  publication_in_callback = PublicationInCallback.new;
  graph = none;
}

-- Callbacks of services are ignored.
unfoldable pub add_by_type : Ref → CallbackType → CallbackDependency → CallbackDependency
add_by_type callback CallbackType.timer s = record s {
  timer_driven_callbacks = s.timer_driven_callbacks ++ callback ∷ [];
}
add_by_type callback CallbackType.subscription s = record s {
  message_driven_callbacks = s.message_driven_callbacks ++ callback ∷ [];
}
add_by_type callback CallbackType.service s = s

unfoldable pub add_callback : World → Ref → CallbackDependency → Result CallbackDependency
unfolding callback_type add_by_type
add_callback w callback_arc s = do
  callback ← lock w.callbacks callback_arc
  caller ← expect (into_option callback.caller)
  ok (add_by_type callback_arc (callback_type caller) s)

instance abbrev pub topic_key : Key String
topic_key = record { same = str_eq; same_iff = str_eq_iff }

-- The variables of `construct_callback_graph` while it makes the nodes.
pub record Nodes : Type 0 where
  pub nodes : List Ref
  pub callback_to_node : Table Ref ℕ
  pub topic_to_nodes : Table String (List ℕ)
  pub sources : List ℕ

abbrev pub no_nodes : Nodes
no_nodes = record { nodes = []; callback_to_node = []; topic_to_nodes = []; sources = [] }

unfoldable pub add_node : Ref → Nodes → Nodes
add_node callback n = record n {
  nodes = n.nodes ++ callback ∷ [];
  callback_to_node = insert callback (length n.nodes) n.callback_to_node;
}

unfoldable pub add_timer_nodes : List Ref → Nodes → Nodes
unfolding add_node
add_timer_nodes [] n = n
add_timer_nodes (callback ∷ rest) n =
    add_timer_nodes rest
      (record (add_node callback n) { sources = n.sources ++ length n.nodes ∷ [] })

-- `unwrap_subscription_ref`.
abbrev pub unwrap_subscription : CallbackCaller → Result ArcWeak
unwrap_subscription (CallbackCaller.subscription subscriber) = ok subscriber
unwrap_subscription (CallbackCaller.service s) = fault panic
unwrap_subscription (CallbackCaller.timer t) = fault panic

module _ (subscriber_alive : Ref → Bool) (w : World) where
  -- The topic that a message-driven callback waits for.
  unfoldable pub topic_of_callback : Ref → Result String
  unfolding get_arc
  topic_of_callback callback_arc = do
    callback ← lock w.callbacks callback_arc
    caller ← expect (into_option callback.caller)
    subscriber_weak ← unwrap_subscription caller
    subscriber_arc ← expect (get_arc subscriber_alive subscriber_weak)
    subscriber ← lock w.subscribers subscriber_arc
    expect (into_option subscriber.topic_name)

  unfoldable pub add_message_nodes : List Ref → Nodes → Result Nodes
  unfolding topic_of_callback add_node
  add_message_nodes [] n = ok n
  add_message_nodes (callback ∷ rest) n = do
    topic ← topic_of_callback callback
    add_message_nodes rest (record (add_node callback n) {
      topic_to_nodes = push topic (length n.nodes) n.topic_to_nodes;
    })

  -- `callback_to_node[callback]` panics on a callback without a node.
  unfoldable pub edges_to : Table Ref ℕ → Ref → List ℕ → Result (List (ℕ × ℕ))
  edges_to ids callback [] = ok []
  edges_to ids callback (node ∷ rest) = do
    source ← expect (get callback ids)
    edges ← edges_to ids callback rest
    ok ((source, node) ∷ edges)

  unfoldable pub edges_to_topic : Table Ref ℕ → Ref → Option (List ℕ) → Result (List (ℕ × ℕ))
  unfolding edges_to
  edges_to_topic ids callback none = ok []
  edges_to_topic ids callback (some nodes) = edges_to ids callback nodes

  unfoldable pub topic_of_publisher : Ref → Result String
  topic_of_publisher publisher_arc = do
    publisher ← lock w.publishers publisher_arc
    expect (into_option publisher.topic_name)

  unfoldable pub all_edges : Nodes → List (Ref × Ref) → Result (List (ℕ × ℕ))
  unfolding edges_to_topic topic_of_publisher
  all_edges n [] = ok []
  all_edges n ((publisher_arc, callback) ∷ rest) = do
    topic ← topic_of_publisher publisher_arc
    edges ← edges_to_topic n.callback_to_node callback (get topic n.topic_to_nodes)
    later ← all_edges n rest
    ok (edges ++ later)

  unfoldable pub construct_callback_graph : CallbackDependency → Result CallbackDependency
  unfolding add_timer_nodes add_message_nodes all_edges
  construct_callback_graph s = do
    n ←
        add_message_nodes s.message_driven_callbacks
          (add_timer_nodes s.timer_driven_callbacks no_nodes)
    edges ← all_edges n s.publication_in_callback.dependency
    ok (record s { graph = some (record { nodes = n.nodes; edges = edges; sources = n.sources }) })

unfoldable pub add_registered :
    World → Processed.Event → CallbackDependency → Result CallbackDependency
unfolding add_callback
add_registered w (Processed.ros2 (Processed.Ros2.rclcpp_callback_register event)) s =
    add_callback w event.callback s
add_registered w _ s = ok s

unfoldable pub process_event :
    World → Processed.FullEvent → CallbackDependency → Result CallbackDependency
unfolding add_registered
process_event w full_event s = do
  publication_in_callback ←
      PublicationInCallback.process_event w full_event s.publication_in_callback
  add_registered w full_event.event (record s { publication_in_callback = publication_in_callback })

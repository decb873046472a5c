-- ===== src/Analysis/Exports.antt =====
-- What the analyses of src/analysis export: the entries that `write_json` of the durations, latencies and spins makes, and
-- the lines that `write_stats` of the publications in callbacks writes. They lock and unwrap what they show.
use ros2trace_analyzer.Common.{ℤ, String, Ref, Option, none, some, List, [], ◌∷◌, map, Result, ok}
use ros2trace_analyzer.Utils.Known.{Known, known, unknown, into_option}
use ros2trace_analyzer.Utils.Known
use ros2trace_analyzer.Utils.ArcWeak.{ArcWeak}
use ros2trace_analyzer.Utils.WeakKnown.{WeakKnown, weak_known_text, unwrap, unwrap_or}
use ros2trace_analyzer.Model.Name.{get_full_name}
use ros2trace_analyzer.Model.Callback.{Callback, CallbackCaller, callback_type}
use ros2trace_analyzer.Processor.State.{World}
use ros2trace_analyzer.Analysis.Base.{◌>>=◌, expect}
use ros2trace_analyzer.Analysis.Table.{Table, or_default}
use ros2trace_analyzer.Analysis.CallbackDuration.{ExecutionData, get_inter_arrival_time_inner}
use ros2trace_analyzer.Analysis.MessageLatency.{SubPubKey}
use ros2trace_analyzer.Display.{Environment, LockType, Held, with_lock}
use ros2trace_analyzer.Display.Objects.{known_debug}
use ros2trace_analyzer.Display.Summary.{
  type_text, get_node_of_caller, callback_summary, get_node_name_from_weak, get_caller_as_string,
}

-- `Record` of the durations of a callback.
pub record CallbackRecord : Type 0 where
  pub node : String
  pub caller_type : String
  pub caller_param : String
  pub durations : List ℤ
  pub inter_arrival_times : List ℤ

pub record MessageLatencyStats : Type 0 where
  pub topic : String
  pub subscriber : Ref
  pub publisher : Option Ref
  pub latencies : List ℤ

pub record MessageLatencyExport : Type 0 where
  pub topic : String
  pub subscriber_node : String
  pub publisher_node : String
  pub latencies : List ℤ

-- `to_string` of a text, or of the type of a callback, that may not be known.
unfoldable pub plain_text : Known String → String
plain_text (known s) = s
plain_text unknown = "Unknown"

module _ (env : Environment) (w : World) where
  -- `SpinDurationEntry`: the name of the node with its durations.
  unfoldable pub spin_entries : Table Ref (List ℤ) → Result (List (String × List ℤ))
  spin_entries [] = ok []
  spin_entries ((node, durations) ∷ rest) = do
    name ←
        with_lock LockType.node w.nodes node
          (λ n _. expect (into_option (Known.map get_full_name n.full_name))) []
    later ← spin_entries rest
    ok ((name, durations) ∷ later)

  -- `ExportEntry`: the caller of the callback with its latencies.
  unfoldable pub caller_text_of : Callback → Held → Result String
  caller_text_of callback held = do
    caller ← expect (into_option callback.caller)
    text ← get_caller_as_string env w caller held
    unwrap text

  unfoldable pub latency_entries : Table Ref (List ℤ) → Result (List (String × List ℤ))
  unfolding caller_text_of
  latency_entries [] = ok []
  latency_entries ((callback, latencies) ∷ rest) = do
    text ← with_lock LockType.callback w.callbacks callback caller_text_of []
    later ← latency_entries rest
    ok ((text, latencies) ∷ later)

  -- The lines of the publications in callbacks, with the publisher and then the callback locked.
  unfoldable pub publication_lines : List (Ref × Ref) → Result (List (String × String))
  publication_lines [] = ok []
  publication_lines ((publisher, callback) ∷ rest) = do
    line ←
        with_lock LockType.publisher w.publishers publisher
          (λ p held.
            with_lock LockType.callback w.callbacks callback
              (λ c held'. callback_summary env w c held' >>= λ summary.
                ok (summary, known_debug env w p.topic_name))
              held)
          []
    later ← publication_lines rest
    ok (line ∷ later)

  unfoldable pub node_of_callback : Known CallbackCaller → Held → Result (WeakKnown String)
  node_of_callback unknown held = ok WeakKnown.unknown
  node_of_callback (known caller) held = do
    node ← get_node_of_caller env w caller held
    elim node [
      | none ↦ ok WeakKnown.unknown
      | some reference ↦ get_node_name_from_weak env w reference held
    ]

  -- The texts of a callback: its node, its type and its caller.
  unfoldable pub callback_texts : Callback → Held → Result (String × String × String)
  unfolding node_of_callback plain_text type_text callback_type
  callback_texts callback held = do
    node ← node_of_callback callback.caller held
    caller ← expect (into_option callback.caller)
    param ← get_caller_as_string env w caller held
    ok (
      weak_known_text (λ (s : String). s) node,
      plain_text (Known.map (λ c. type_text (callback_type c)) callback.caller),
      weak_known_text (λ (s : String). s) param,
    )

  unfoldable pub get_records : Table Ref (List ExecutionData) → Result (List CallbackRecord)
  unfolding callback_texts
  get_records [] = ok []
  get_records ((callback, executions) ∷ rest) = do
    texts ← with_lock LockType.callback w.callbacks callback callback_texts []
    times ← get_inter_arrival_time_inner executions
    later ← get_records rest
    ok (
        record {
          node = texts.0;
          caller_type = texts.1;
          caller_param = texts.2;
          durations = map (λ (d : ExecutionData). d.duration) executions;
          inter_arrival_times = or_default [] times;
        }
        ∷ later)

  unfoldable pub calculate_stats : Table SubPubKey (List ℤ) → Result (List MessageLatencyStats)
  unfolding plain_text
  calculate_stats [] = ok []
  calculate_stats (((subscriber, publisher), latencies) ∷ rest) = do
    topic ←
        with_lock LockType.subscriber w.subscribers subscriber (λ s _. ok (plain_text s.topic_name))
          []
    later ← calculate_stats rest
    ok (
        record {
          topic = topic;
          subscriber = subscriber;
          publisher = publisher;
          latencies = latencies;
        }
        ∷ later)

  unfoldable pub node_name_or_unknown : Known ArcWeak → Held → Result String
  node_name_or_unknown unknown held = ok "Unknown"
  node_name_or_unknown (known reference) held = do
    name ← get_node_name_from_weak env w reference held
    ok (unwrap_or name "Unknown")

  -- The publisher is locked while its node is read only.
  unfoldable pub publisher_node_name : Option Ref → Held → Result String
  unfolding node_name_or_unknown
  publisher_node_name none held = ok "Unknown"
  publisher_node_name (some publisher) held = do
    node ← with_lock LockType.publisher w.publishers publisher (λ p _. ok p.node) held
    node_name_or_unknown node held

  -- The names of both nodes, with the subscriber locked.
  unfoldable pub export_stats : MessageLatencyStats → Result MessageLatencyExport
  unfolding node_name_or_unknown publisher_node_name
  export_stats value =
      with_lock LockType.subscriber w.subscribers value.subscriber
        (λ s held. node_name_or_unknown s.node held >>= λ subscriber_node.
          publisher_node_name value.publisher held >>= λ publisher_node. ok (record {
            topic = value.topic;
            subscriber_node = subscriber_node;
            publisher_node = publisher_node;
            latencies = value.latencies;
          }))
        []

  unfoldable pub export_all : List MessageLatencyStats → Result (List MessageLatencyExport)
  unfolding export_stats
  export_all [] = ok []
  export_all (value ∷ rest) = do
    entry ← export_stats value
    later ← export_all rest
    ok (entry ∷ later)

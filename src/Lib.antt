-- ===== src/Lib.antt =====
-- Ros2TraceAnalyzer: a model of the core of the analyzer, and theorems about it.
--
-- The program reads a trace of a ROS 2 system, event by event. Its processor (src/processor) keeps
-- maps from handles to shared objects (src/model/mod.rs), updates them at every event, and hands on a
-- processed event that refers to these objects; the analyses (src/analysis) read the processed events, and the
-- statistics (src/statistics.rs) sum up what they collected.
--
-- Common and its children are shared: tests on native numbers, integers, lists, and the outcomes of
-- fallible code (Common/Outcome: the errors of src/processor/error.rs and src/model/mod.rs, and the
-- faults: a failed assertion, a lock that is taken twice, an address without an object).
-- Utils models `Known`, `WeakKnown` and `ArcWeak` of src/utils.rs, and the arithmetic of its durations
-- (Utils/Duration); Utils/Format is what the program uses of `std::fmt`.
-- Model has one module for each type of src/model/mod.rs: the struct as a record, each method that
-- changes it as a function to a result. Beside a type stand the invariants of its methods
-- (Consistency), and for some a theorem on its data (Subscriber/Queue, Name/RoundTrip, Gid/Bytes).
-- Events models src/raw_events, src/processed_events and src/events_common.rs.
-- Processor models src/processor. Processor/State is the struct `Processor`: `HashMap`s are functions
-- to optional addresses, and an `Arc<Mutex<T>>` is an address in the heap of its type, so that objects
-- that the program shares are shared here. Processor/Exec is the monad of the methods: a method
-- returns, fails with an error beside the state that it has reached, or faults. Nodes, Publishers,
-- Publications, Subscriptions, Takes, Services, Timers, Callers and Callbacks are the handlers of
-- src/processor/ros2.rs, under the names of the source (process_rcl_node_init, ...), Spins those of
-- src/processor/r2r.rs, Hosts is `host_to_host_id`, and Dispatch is `process_raw_event` with the two
-- matches below it, all of src/processor. Processor/Trace has the states that a run over a trace
-- reaches: the state after an error is the one that the handler had reached.
-- Beside the handlers stand the theorems on what they leave behind, where they fail and where they
-- fault; Processor/Transport puts the publication and the receipt of a message together, and
-- Processor/Tests has runs on small inputs.
-- Processor/Exec/Keeps and Processor/Exec/Objects are the rules by which an action keeps an invariant;
-- Processor/Dispatch/Keeps lifts an invariant from the handlers to every event, Processor/Trace to
-- every reachable state, and Processor/Invariants uses them.
--
-- Analysis models src/analysis. Its maps and sets are lists with keys (Analysis/Table); a step of an analysis reads
-- the objects of the processor as they are when the event comes, and returns or panics (Analysis/Base). Each analysis
-- is a module: SpinDuration, TakeToCallbackLatency, CallbackDuration, MessageLatency, PublicationInCallback,
-- CallbackDependency, and DependencyGraph with its types (Graph), the uses of its
-- edges (Uses), the uses that a trace tells (Trace), what becomes of it for the output (Dot) and the ranges of
-- latencies (Ranges).
-- Analysis/EventAnalysis is the trait that they implement. Analysis/Returns has the rules on what holds of the value of a
-- step.
-- Statistics models src/statistics.rs; the arithmetic of `f64` is a parameter (Statistics/Float).
-- Utilization (src/analysis/utilization.rs) sums up the executions of CallbackDuration, Utilization/Report is what it
-- writes. Analysis/Exports is what the other analyses export.
-- Display models src/model/display.rs and the text of the processed events. An object is shown under its lock, and a lock
-- that is taken while it is held is a fault, so that the text carries the locks that are held (`Held`):
-- Objects, Messages, WithoutNode and Summary are the impls of src/model/display.rs, Events is src/processed_events;
-- Shows has the rules for a text that takes no held lock, and Deadlock the proofs.
-- Visualization models src/visualization/graphviz_export.rs, Args models src/argsv2.rs: the outputs that are asked for,
-- their paths, and the search for traces (Args/Traces).
-- Program models src/main.rs: the iterator over the messages of a trace, the loop that reads it, the analyses that it
-- runs side by side (Program/Analyses) and the outputs behind the loop (Program/Outputs): the JSON and the text
-- of what is made for an output are a parameter (`Writers`), which may fail. Program/Finished lifts an invariant of
-- the analyses to the end of the loop.
--
-- Handles and pointers are natural numbers, times are integers in nanoseconds, a duration is its
-- number of nanoseconds. `Duration::new` and the conversion of the number of hosts to 32 bits keep
-- their bounds. The analyses subtract times as a build with debug assertions does: an overflow of 64 bits panics, as
-- does a failed `debug_assert!`. The loop over the items of a trace needs fuel, one unit for each message and one
-- more, since each item takes a message at least and the end of the trace one unit more.
-- Which weak references can still be upgraded when an event is handled is a parameter (`Liveness`),
-- since the addresses of the model are never freed.
--
-- The arithmetic of `f64`, the characters that `{:?}` escapes, the walk over directories and the answers of babeltrace
-- are parameters too. Texts are native strings; `digits` gets the number as its fuel, which is enough, since a
-- number has no more digits than that.
--
-- Not modelled: the reading of events out of babeltrace messages, the bindings to babeltrace 2, JSON, files and
-- logs, the parser of the command line, and the messages of errors.
pub mod Common
pub mod Utils
pub mod Model
pub mod Events
pub mod Processor
pub mod Statistics
pub mod Analysis
pub mod Display
pub mod Args
pub mod Visualization
pub mod Program

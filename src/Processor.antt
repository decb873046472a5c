-- ===== src/Processor.antt =====
-- src/processor: the processor turns raw events into processed ones and builds the model of the
-- system on the way.
pub mod Id
pub mod State
pub mod Exec
pub mod Fields
pub mod Hosts
pub mod Nodes
pub mod Publishers
pub mod Publications
pub mod Subscriptions
pub mod Takes
pub mod Services
pub mod Timers
pub mod Callers
pub mod Callbacks
pub mod Spins
pub mod Transport
pub mod Dispatch
pub mod Tests
pub mod Trace
pub mod Invariants

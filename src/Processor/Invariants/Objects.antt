-- ===== src/Processor/Invariants/Objects.antt =====
-- Every object in the heaps of the processor is consistent, in the sense of its module.
mod Defs
pub mod Publishers
pub mod Publications
pub mod Callers
pub mod Takes
pub mod Subscriptions
pub mod Services
pub mod Callbacks
pub mod Spins
pub mod Dispatch
pub use Defs.*

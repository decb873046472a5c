-- ===== src/Processor/Tests.antt =====
-- A talker and a listener in one process: the handlers of src/processor run on small inputs.
pub mod Data
mod Initialisations
mod Messages
mod Lifecycles
mod Invariants

-- ===== src/Processor/Invariants.antt =====
-- Invariants of the processor: what no sequence of events can break.
pub mod Objects

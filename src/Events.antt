-- ===== src/Events.antt =====
-- The events that the processor reads and those that it makes of them.
pub mod Context
pub mod Raw
pub mod Processed

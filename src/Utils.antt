-- ===== src/Utils.antt =====
-- src/utils.rs.
pub mod Known
pub mod WeakKnown
pub mod ArcWeak
pub mod Duration
pub mod Format
pub mod Tests

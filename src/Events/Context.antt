-- ===== src/Events/Context.antt =====
-- src/events_common.rs.
use ros2trace_analyzer.Common.{ℕ, String}

pub record Context : Type 0 where
  pub cpu_id : ℕ
  pub vpid : ℕ
  pub vtid : ℕ
  pub procname : String
  pub hostname : String

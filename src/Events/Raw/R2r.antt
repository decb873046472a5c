-- ===== src/Events/Raw/R2r.antt =====
-- src/raw_events/r2r.rs.
use ros2trace_analyzer.Common.{ℕ, ℤ}

pub record SpinStart : Type 0 where
  pub node_handle : ℕ
  pub timeout_s : ℕ
  pub timeout_ns : ℕ

pub record SpinEnd : Type 0 where
  pub node_handle : ℕ

pub record SpinWake : Type 0 where
  pub node_handle : ℕ

pub record SpinTimeout : Type 0 where
  pub node_handle : ℕ

pub record UpdateTime : Type 0 where
  pub subscriber : ℕ
  pub time_s : ℤ
  pub time_ns : ℕ

pub data Event : Type 0 where
  spin_start : SpinStart → Event
  spin_end : SpinEnd → Event
  spin_wake : SpinWake → Event
  spin_timeout : SpinTimeout → Event
  update_time : UpdateTime → Event

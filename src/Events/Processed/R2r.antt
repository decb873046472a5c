-- ===== src/Events/Processed/R2r.antt =====
-- src/processed_events/r2r.rs. An object is the address of its cell.
use ros2trace_analyzer.Common.{ℕ, ℤ, Ref, Option}

pub record SpinStart : Type 0 where
  pub node : Ref
  pub spin : Ref

pub record SpinEnd : Type 0 where
  pub node : Ref
  pub spin : Option Ref

pub record SpinWake : Type 0 where
  pub node : Ref
  pub spin : Option Ref

pub record SpinTimeout : Type 0 where
  pub node : Ref
  pub spin : Option Ref

pub record UpdateTime : Type 0 where
  pub subscriber : Ref
  pub time_s : ℤ
  pub time_ns : ℕ

pub data Event : Type 0 where
  spin_start : SpinStart → Event
  spin_end : SpinEnd → Event
  spin_wake : SpinWake → Event
  spin_timeout : SpinTimeout → Event
  update_time : UpdateTime → Event

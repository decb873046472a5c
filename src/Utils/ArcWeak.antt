-- ===== src/Utils/ArcWeak.antt =====
-- `ArcWeak<T>` of src/utils.rs. Whether a weak reference can still be upgraded is decided by the
-- reference counts of `std::sync::Arc`, which every part of the program moves: `alive` says it.
use ros2trace_analyzer.Common.{Bool, true, false, Option, none, some, Ref, if◌then◌else◌}

pub data ArcWeak : Type 0 where
  arc : Ref → ArcWeak
  weak : Ref → ArcWeak

module _ (alive : Ref → Bool) where
  unfoldable pub get_arc : ArcWeak → Option Ref
  get_arc (arc r) = some r
  get_arc (weak r) = if alive r then some r else none

  unfoldable pub upgrade_in_place : ArcWeak → ArcWeak × Bool
  upgrade_in_place (arc r) = (arc r, true)
  upgrade_in_place (weak r) = if alive r then (arc r, true) else (weak r, false)

unfoldable pub downgrade_in_place : ArcWeak → ArcWeak
downgrade_in_place (arc r) = weak r
downgrade_in_place (weak r) = weak r

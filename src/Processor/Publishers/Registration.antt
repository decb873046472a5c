-- ===== src/Processor/Publishers/Registration.antt =====
-- What `process_rmw_publisher_init` and `process_rcl_publisher_init` leave behind.
use ros2trace_analyzer.Common.{◌≡◌, ◌↔◌, Ref, true, false, Option, none, some, panic, arith}
use ros2trace_analyzer.Utils.Known.{known, is_unknown_or_eq}
use ros2trace_analyzer.Model.Gid
use ros2trace_analyzer.Model.Publisher
use ros2trace_analyzer.Model.Publisher.{Publisher}
use ros2trace_analyzer.Events.Raw.Ros2.{RmwPublisherInit}
use ros2trace_analyzer.Processor.Id.{ContextId, into_id, id_eq_refl}
use ros2trace_analyzer.Processor.State.{World}
use ros2trace_analyzer.Processor.Exec.{done, faulted, actions, Shows}
use ros2trace_analyzer.Processor.Publishers.{rmw_replace, process_rmw_publisher_init}

-- When `process_rmw_publisher_init` returns, the handle of the event leads to the publisher that it
-- returns, which has this handle and this gid and is not removed.
pub rmw_publisher_init-registers :
    (e : RmwPublisherInit) (c : ContextId) (w : World) {r : Ref} {w' : World}
    → process_rmw_publisher_init e c w ≡ done r w'
    → (w'.publishers_by_rmw (into_id e.rmw_publisher_handle c) ≡ some r)
      × Shows (w'.publishers.cell r) (λ p.
        (p.rmw_handle ≡ known e.rmw_publisher_handle)
        × (p.rmw_gid ≡ known (Gid.new e.gid))
        × (p.removed ≡ false))
unfolding process_rmw_publisher_init rmw_replace actions Publisher.rmw_init Publisher.mark_removed
    is_unknown_or_eq
rmw_publisher_init-registers e c w h = ground (arith, id_eq_refl (into_id e.rmw_publisher_handle c))

-- The address leads to a removed publisher.
abbrev pub LeadsToRemoved : Option Ref → World → Type 0
LeadsToRemoved none w = ⊥
LeadsToRemoved (some r) w = Shows (w.publishers.cell r) (λ p. p.removed ≡ true)

-- `process_rmw_publisher_init` panics exactly when the handle of the event leads to a removed
-- publisher.
pub rmw_publisher_init-panics :
    (e : RmwPublisherInit) (c : ContextId) (w : World)
    → (process_rmw_publisher_init e c w ≡ faulted panic)
      ↔ LeadsToRemoved (w.publishers_by_rmw (into_id e.rmw_publisher_handle c)) w
unfolding process_rmw_publisher_init rmw_replace actions Publisher.rmw_init Publisher.mark_removed
    is_unknown_or_eq
rmw_publisher_init-panics e c w = ground arith

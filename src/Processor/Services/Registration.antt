-- ===== src/Processor/Services/Registration.antt =====
-- What `process_rcl_service_init` of src/processor/ros2.rs leaves behind, and where it fails.
use ros2trace_analyzer.Common.{
  ◌≡◌, Ref, none, some, Object, ObjectType, Error, object_missing_dependency, arith,
}
use ros2trace_analyzer.Utils.Known.{known, is_unknown}
use ros2trace_analyzer.Utils.ArcWeak.{weak}
use ros2trace_analyzer.Model.Node
use ros2trace_analyzer.Model.Service
use ros2trace_analyzer.Events.Raw.Ros2.{RclServiceInit}
use ros2trace_analyzer.Processor.Id.{ContextId, into_id, id_eq_refl}
use ros2trace_analyzer.Processor.State.{World}
use ros2trace_analyzer.Processor.Exec.{Run, done, failed, faulted, actions, Shows}
use ros2trace_analyzer.Processor.Subscriptions.{node_or_missing, dependent_node}
use ros2trace_analyzer.Processor.Services.{
  rcl_init_service, replace_service, process_rcl_service_init,
}

-- When `process_rcl_service_init` returns, the service handle of the event leads to the service that
-- it returns, which has the name of the event and belongs to the node that the node handle led to.
pub rcl_service_init-registers :
    (e : RclServiceInit) (c : ContextId) (w : World) {r : Ref} {w' : World}
    → process_rcl_service_init e c w ≡ done r w'
    → (w'.services_by_rcl (into_id e.service_handle c) ≡ some r)
      × Shows (w.nodes_by_rcl (into_id e.node_handle c)) (λ n.
        Shows
          (w'.services.cell r)
          (λ s. (s.name ≡ known e.service_name) × (s.node ≡ known (weak n))))
unfolding process_rcl_service_init replace_service rcl_init_service dependent_node node_or_missing
    actions Service.rcl_init Service.new Service.mark_removed Node.add_service is_unknown
rcl_service_init-registers e c w h = ground (arith, id_eq_refl (into_id e.service_handle c))

-- The run fails, with an error and a state for which `P` holds.
abbrev pub Fails : {A : Type 0} → Run A → (Error → World → Type 0) → Type 0
Fails (done a w) P = ⊥
Fails (failed e w) P = P e w
Fails (faulted x) P = ⊥

-- Where the node handle is not known, `process_rcl_service_init` fails with an error that names the
-- missing node and the service, and the service handle leads to this service all the same.
pub rcl_service_init-missing_node :
    (e : RclServiceInit) (c : ContextId) (w : World)
    → w.nodes_by_rcl (into_id e.node_handle c) ≡ none
    → Fails (process_rcl_service_init e c w) (λ x w'.
      Shows (w'.services_by_rcl (into_id e.service_handle c)) (λ s.
        x
        ≡ object_missing_dependency (Object.service s) (record {
          key = e.node_handle;
          object_type = ObjectType.node;
          key_variable = "rcl_handle";
        })))
unfolding process_rcl_service_init dependent_node node_or_missing actions Service.new
rcl_service_init-missing_node e c w missing =
    ground (arith, id_eq_refl (into_id e.service_handle c))

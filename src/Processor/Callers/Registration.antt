-- ===== src/Processor/Callers/Registration.antt =====
-- When a callback may take the handle of another: the registration of callbacks.
use ros2trace_analyzer.Common.{◌≡◌, ℕ, some, Error, already_exists, Object, arith}
use ros2trace_analyzer.Model.Callback.{Callback}
use ros2trace_analyzer.Processor.Id.{ContextId, into_id, id_eq_refl}
use ros2trace_analyzer.Processor.State.{World}
use ros2trace_analyzer.Processor.Exec.{failed, actions, Shows}
use ros2trace_analyzer.Processor.Callers.{
  Liveness, subscriber_removed, service_removed, timer_removed, is_removed, caller_removed,
  keep_unless_removed, filter_out_removed_callers, filter_old, reject_old, register_callback,
}

-- A registration that is refused for an existing callback has registered the new one all the same:
-- the handle leads to the new callback afterwards. The error names the new callback as the old object
-- and the old one, which the handle led to before, as the new object.
pub register_callback-rejects :
    (alive : Liveness) (handle : ℕ) (c : ContextId) (callback : Callback) (w : World) {x : Error}
    {w' : World}
    → register_callback alive handle c callback w ≡ failed x w'
    → Shows (w.callbacks_by_id (into_id handle c)) (λ old.
      Shows (w'.callbacks_by_id (into_id handle c)) (λ new.
        (w'.callbacks.cell new ≡ some callback)
        × (x
            ≡ already_exists (record {
              key = handle;
              key_variable = "id";
              new_object = Object.callback old;
              old_object = Object.callback new;
            }))))
unfolding register_callback filter_old filter_out_removed_callers keep_unless_removed caller_removed
    is_removed subscriber_removed service_removed timer_removed reject_old actions
register_callback-rejects alive handle c callback w h =
    ground (arith, id_eq_refl (into_id handle c))

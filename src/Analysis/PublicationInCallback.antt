-- ===== src/Analysis/PublicationInCallback.antt =====
-- src/analysis/publication_in_callback.rs: which publishers publish while which callback runs on the same
-- thread.
use ros2trace_analyzer.Common.{Ref, List, [], Option, none, some, Result, ok, ◌==◌}
use ros2trace_analyzer.Utils.Known.{into_option}
use ros2trace_analyzer.Events.Context.{Context}
use ros2trace_analyzer.Events.Processed
use ros2trace_analyzer.Processor.State.{World}
use ros2trace_analyzer.Analysis.Base.{
  ◌>>=◌, ◌>>◌, assert, expect, lock, panic_on_some, ThreadId, thread_of, thread_key,
}
use ros2trace_analyzer.Analysis.Table.{Table, get, insert, remove, add, ref_key, pair_key}

-- The pairs of `dependency` are a publisher and a callback.
pub record PublicationInCallback : Type 0 where
  pub active_callbacks : Table ThreadId Ref
  pub dependency : List (Ref × Ref)

abbrev pub new : PublicationInCallback
new = record { active_callbacks = []; dependency = [] }

unfoldable pub activate_callback :
    Ref → Context → PublicationInCallback → Result PublicationInCallback
activate_callback callback context s = do
  panic_on_some (get (thread_of context) s.active_callbacks)
  ok (record s { active_callbacks = insert (thread_of context) callback s.active_callbacks })

unfoldable pub deactivate_callback :
    Ref → Context → PublicationInCallback → Result PublicationInCallback
deactivate_callback callback context s = do
  old ← expect (get (thread_of context) s.active_callbacks)
  assert (old == callback)
  ok (record s { active_callbacks = remove (thread_of context) s.active_callbacks })

-- A publication outside callbacks is ignored.
unfoldable pub process_publication_in :
    World → Ref → Option Ref → PublicationInCallback → Result PublicationInCallback
process_publication_in w publication none s = ok s
process_publication_in w publication (some active) s = do
  callback ← lock w.instances active
  publication_msg ← lock w.publications publication
  publisher_arc ← expect (into_option publication_msg.publisher)
  ok (record s { dependency = add (publisher_arc, callback.callback) s.dependency })

unfoldable pub process_publication :
    World → Ref → Context → PublicationInCallback → Result PublicationInCallback
unfolding process_publication_in
process_publication w publication context s =
    process_publication_in w publication (get (thread_of context) s.active_callbacks) s

unfoldable pub process_event :
    World → Processed.FullEvent → PublicationInCallback → Result PublicationInCallback
process_event w full_event s = elim full_event.event [
  | Processed.ros2 (Processed.Ros2.callback_start event) ↦
      activate_callback event.callback full_event.context s
  | Processed.ros2 (Processed.Ros2.callback_end event) ↦
      deactivate_callback event.callback full_event.context s
  | Processed.ros2 (Processed.Ros2.rmw_publish event) ↦
      process_publication w event.message full_event.context s
  | _ ↦ ok s
]

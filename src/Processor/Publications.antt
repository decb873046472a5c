-- ===== src/Processor/Publications.antt =====
-- The handlers of src/processor/ros2.rs for the publication of messages: a message passes through
-- rclcpp, rcl and rmw, and is found in the layer above by its address.
pub mod Pipeline
use ros2trace_analyzer.Common.{
  ℕ, ℤ, String, Ref, Bool, true, false, Option, none, some, ◌==◌, ObjectType,
}
use ros2trace_analyzer.Utils.Known.{Known, unknown, into_option}
use ros2trace_analyzer.Model.Publisher
use ros2trace_analyzer.Model.Publisher.{Publisher, is_stub, change_rcl_handle}
use ros2trace_analyzer.Model.PublicationMessage
use ros2trace_analyzer.Model.PublicationMessage.{PublicationMessage, Time}
use ros2trace_analyzer.Events.Raw.Ros2.{RclcppPublish, RclPublish, RmwPublish, RclcppIntraPublish}
use ros2trace_analyzer.Processor.Id.{ContextId, into_id}
use ros2trace_analyzer.Processor.State.{message_insert}
use ros2trace_analyzer.Processor.Exec.{
  M, done, ◌>>=◌, ◌>>◌, pure, lift, expect, expect_some, get, get_or_err, insert, remove, alloc,
  load, call, modify, entry,
}
use ros2trace_analyzer.Processor.Fields

unfoldable pub process_rclcpp_publish : RclcppPublish → Time → ContextId → M Ref
process_rclcpp_publish event time context_id = do
  message ← lift (PublicationMessage.rclcpp_publish time (PublicationMessage.new event.message))
  message_arc ← alloc Fields.publications message
  insert Fields.published_messages_by_rclcpp (into_id event.message context_id) message_arc
  pure message_arc

-- `unwrap_or_else(|| Arc::new(Mutex::new(PublicationMessage::new(..))))`.
unfoldable pub unwrap_or_new : ℕ → Option Ref → M Ref
unwrap_or_new message (some message_arc) = pure message_arc
unwrap_or_new message none = alloc Fields.publications (PublicationMessage.new message)

unfoldable pub process_rcl_publish : RclPublish → Time → ContextId → M Ref
process_rcl_publish event time context_id = do
  let id = into_id event.message context_id
  found ← remove Fields.published_messages_by_rclcpp id
  message_arc ← unwrap_or_new event.message found
  insert Fields.published_messages_by_rcl id message_arc
  publisher ←
      entry Fields.publishers_by_rcl Fields.publishers (into_id event.publisher_handle context_id)
        (expect (Publisher.set_rcl_handle event.publisher_handle Publisher.default))
  call Fields.publications message_arc (PublicationMessage.set_publisher publisher)
  call Fields.publications message_arc (PublicationMessage.rcl_publish time)
  pure message_arc

-- The publisher that the message names is not the one of the event. A stub was made for an unknown
-- rcl handle: the handle moves to the publisher of the event.
unfoldable pub mismatch :
    ContextId → (message_arc publisher_arc : Ref) → Publisher → Bool → M (Known String)
mismatch context_id message_arc publisher_arc message_publisher true = do
  modify Fields.publications message_arc (PublicationMessage.replace_publisher publisher_arc)
  rcl_handle ← expect_some (into_option message_publisher.rcl_handle)
  insert Fields.publishers_by_rcl (into_id rcl_handle context_id) publisher_arc
  modify Fields.publishers publisher_arc (change_rcl_handle rcl_handle)
  publisher ← load Fields.publishers publisher_arc
  pure publisher.topic_name
mismatch context_id message_arc publisher_arc message_publisher false = pure unknown

unfoldable pub both_publishers :
    ContextId
    → (message_arc publisher_arc message_publisher_arc : Ref) → Publisher
    → Bool
    → M (Known String)
both_publishers context_id message_arc publisher_arc message_publisher_arc message_publisher true =
    pure message_publisher.topic_name
both_publishers context_id message_arc publisher_arc message_publisher_arc message_publisher false =
    mismatch context_id message_arc publisher_arc message_publisher (is_stub message_publisher)

-- The match on the publisher of the event and that of the message.
unfoldable pub topic_of_publication :
    ContextId → (message_arc : Ref) → Option Ref → Option Ref → M (Known String)
topic_of_publication context_id message_arc (some publisher_arc) (some message_publisher_arc) = do
  message_publisher ← load Fields.publishers message_publisher_arc
  both_publishers context_id message_arc publisher_arc message_publisher_arc message_publisher
      (publisher_arc == message_publisher_arc)
topic_of_publication context_id message_arc (some publisher_arc) none = do
  call Fields.publications message_arc (PublicationMessage.set_publisher publisher_arc)
  publisher ← load Fields.publishers publisher_arc
  pure publisher.topic_name
topic_of_publication context_id message_arc none (some message_publisher_arc) = do
  message_publisher ← load Fields.publishers message_publisher_arc
  pure message_publisher.topic_name
topic_of_publication context_id message_arc none none = pure unknown

-- `publisher_id.and_then(|id| self.publishers_by_rmw.get(&id))`.
unfoldable pub publisher_by_rmw : ContextId → Option ℕ → M (Option Ref)
publisher_by_rmw context_id none = pure none
publisher_by_rmw context_id (some h) = get Fields.publishers_by_rmw (into_id h context_id)

unfoldable pub insert_published : ℤ → Known String → Ref → M (Unit {0})
insert_published timestamp topic message_arc w = done tt (record w {
  published_messages = message_insert w.published_messages timestamp topic message_arc;
})

unfoldable pub record_publication :
    Time → Known String → (message_arc : Ref) → Option ℤ → M (Unit {0})
record_publication time topic message_arc (some timestamp) = do
  call Fields.publications message_arc (PublicationMessage.rmw_publish time timestamp)
  insert_published timestamp topic message_arc
record_publication time topic message_arc none =
    call Fields.publications message_arc (PublicationMessage.rmw_publish_old time)

unfoldable pub process_rmw_publish : RmwPublish → Time → ContextId → M Ref
process_rmw_publish event time context_id = do
  found ← remove Fields.published_messages_by_rcl (into_id event.message context_id)
  message_arc ← unwrap_or_new event.message found
  publisher_arc ← publisher_by_rmw context_id event.rmw_publisher_handle
  message ← load Fields.publications message_arc
  topic ← topic_of_publication context_id message_arc publisher_arc (into_option message.publisher)
  record_publication time topic message_arc event.timestamp
  pure message_arc

unfoldable pub process_rclcpp_intra_publish : RclcppIntraPublish → ContextId → M Ref
process_rclcpp_intra_publish event context_id = do
  message_arc ←
      get_or_err Fields.published_messages_by_rclcpp (into_id event.message context_id) "address"
        ObjectType.published_message
  publisher_arc ←
      get_or_err Fields.publishers_by_rcl (into_id event.publisher_handle context_id) "rcl_handle"
        ObjectType.publisher
  call Fields.publications message_arc (PublicationMessage.set_publisher publisher_arc)
  pure message_arc

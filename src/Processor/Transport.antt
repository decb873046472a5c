-- ===== src/Processor/Transport.antt =====
-- A message from its publication to its receipt: the handlers for publications and those for taking
-- messages, of src/processor/ros2.rs, meet in `published_messages`.
use ros2trace_analyzer.Common.{◌≡◌, ℕ, ℤ, pos, Ref, false, some, int_eq, arith}
use ros2trace_analyzer.Utils.Known.{known, is_unknown}
use ros2trace_analyzer.Model.PublicationMessage.{Time}
use ros2trace_analyzer.Model.Publisher.{Publisher}
use ros2trace_analyzer.Model.Subscriber
use ros2trace_analyzer.Model.Subscriber.{Subscriber}
use ros2trace_analyzer.Model.SubscriptionMessage
use ros2trace_analyzer.Model.SubscriptionMessage.{fully}
use ros2trace_analyzer.Events.Raw.Ros2.{RmwTake}
use ros2trace_analyzer.Processor.Id.{ContextId, into_id}
use ros2trace_analyzer.Processor.State.{World}
use ros2trace_analyzer.Processor.Exec.{M, ◌>>=◌, pure, actions, Shows, Returns, and_then-Returns}
use ros2trace_analyzer.Processor.Publications.Pipeline.{publish_through, publish_through-publishes}
use ros2trace_analyzer.Processor.Takes.{
  or_lookup, find_published, take_message, keep_taken, process_rmw_take,
}

-- A publication with this timestamp and topic is what a taken message is matched with.
take-matches :
    (e : RmwTake) (t : Time) (c : ContextId) (w : World) (s m : Ref) (subscriber : Subscriber)
    → w.subscribers_by_rmw (into_id e.rmw_subscription_handle c) ≡ some s
    → w.subscribers.cell s ≡ some subscriber
    → subscriber.removed ≡ false
    → int_eq e.source_timestamp (pos 0) ≡ false
    → w.published_messages e.source_timestamp subscriber.topic_name ≡ some m
    → Returns (process_rmw_take e t c w) (λ p w'.
      Shows
        (w'.subscriptions.cell p.0)
        (λ message. (message.message ≡ fully m) × (message.rmw_receive_time ≡ known t))
      × (w'.publications ≡ w.publications))
unfolding process_rmw_take find_published or_lookup take_message keep_taken actions
    Subscriber.replace_taken_message SubscriptionMessage.new SubscriptionMessage.rmw_take_matched
    is_unknown
take-matches e t c w s m subscriber found is_subscriber kept dated published = ground arith

-- A message is published in one process and taken in the same or another one; both messages.
unfoldable pub transport :
    (message publisher_handle rmw_publisher_handle : ℕ)
    → (timestamp : ℤ) → (t₁ t₂ t₃ t₄ : Time) → RmwTake
    → (writer reader : ContextId) → M (Ref × Ref)
transport message publisher_handle rmw_publisher_handle timestamp t₁ t₂ t₃ t₄ take writer reader =
    do
      publication ←
          publish_through message publisher_handle rmw_publisher_handle timestamp t₁ t₂ t₃ writer
      received ← process_rmw_take take t₄ reader
      pure (publication, received.0)

-- A message that a publisher with known handles sends through rclcpp, rcl and rmw, with a source
-- timestamp other than 0, and that a subscriber of the same topic that is not removed takes next with
-- this timestamp, in any process, is matched with its publication: the received message leads to the
-- published one, which has its three publication times.
pub transport-matches :
    (a h h' : ℕ) (t₁ t₂ t₃ t₄ : Time) (e : RmwTake) (writer reader : ContextId) (w : World)
    (p s : Ref) (publisher : Publisher) (subscriber : Subscriber)
    → w.publishers_by_rcl (into_id h writer) ≡ some p
    → w.publishers_by_rmw (into_id h' writer) ≡ some p
    → w.publishers.cell p ≡ some publisher
    → w.subscribers_by_rmw (into_id e.rmw_subscription_handle reader) ≡ some s
    → w.subscribers.cell s ≡ some subscriber
    → subscriber.removed ≡ false
    → subscriber.topic_name ≡ publisher.topic_name
    → int_eq e.source_timestamp (pos 0) ≡ false
    → Returns (transport a h h' e.source_timestamp t₁ t₂ t₃ t₄ e writer reader w) (λ ms w'.
      Shows
        (w'.subscriptions.cell ms.1)
        (λ message. (message.message ≡ fully ms.0) × (message.rmw_receive_time ≡ known t₄))
      × (w'.publications.cell ms.0
          ≡ some (record {
            ptr = a;
            publisher = known p;
            sender_timestamp = known e.source_timestamp;
            rmw_publish_time = known t₃;
            rcl_publish_time = known t₂;
            rclcpp_publish_time = known t₁;
          })))
unfolding transport ◌>>=◌ pure
transport-matches a h h' t₁ t₂ t₃ t₄ e writer reader w p s publisher subscriber by_rcl by_rmw
      is_publisher by_handle is_subscriber kept topic dated =
    and_then-Returns (publish_through a h h' e.source_timestamp t₁ t₂ t₃ writer w) _ _ _
      (publish_through-publishes a h h' e.source_timestamp t₁ t₂ t₃ writer w p publisher by_rcl
        by_rmw is_publisher)
      (λ m w₁ sent.
        and_then-Returns (process_rmw_take e t₄ reader w₁) _ _ _
          (take-matches e t₄ reader w₁ s m subscriber (grind (arith, sent.4))
            (grind (arith, sent.4)) kept dated (grind (arith, sent.1)))
          (λ r w₂ got. (got.0, grind (arith, got.1, sent.0))))

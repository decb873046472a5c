-- ===== src/Processor/Publications/Pipeline.antt =====
-- A message on its way through rclcpp, rcl and rmw: `process_rclcpp_publish`, `process_rcl_publish`
-- and `process_rmw_publish` of src/processor/ros2.rs find it by its address.
use ros2trace_analyzer.Common.{
  ◌≡◌, refl, str_eq_refl, ℕ, ℤ, String, Ref, true, none, some, ==_refl, int_eq_refl, arith,
}
use ros2trace_analyzer.Utils.Known.{Known, known, unknown, is_unknown, known_eq, into_option}
use ros2trace_analyzer.Model.Publisher.{Publisher}
use ros2trace_analyzer.Model.PublicationMessage
use ros2trace_analyzer.Model.PublicationMessage.{PublicationMessage, Time}
use ros2trace_analyzer.Events.Raw.Ros2.{RclcppPublish, RclPublish, RmwPublish}
use ros2trace_analyzer.Processor.Id.{ContextId, into_id, id_eq_refl}
use ros2trace_analyzer.Processor.State.{World, topic_eq}
use ros2trace_analyzer.Processor.Exec.{
  M, ◌>>=◌, ◌>>◌, actions, Returns, and_then-Returns, Returns-weaken,
}
use ros2trace_analyzer.Processor.Publications.{
  process_rclcpp_publish, unwrap_or_new, process_rcl_publish, both_publishers, topic_of_publication,
  publisher_by_rmw, insert_published, record_publication, process_rmw_publish,
}

-- The publishers and the subscribers are the same in two states, and so are their rcl and rmw handles
-- that messages go by.
abbrev pub SameEndpoints : World → World → Type 0
SameEndpoints w w' =
    (w'.publishers_by_rcl ≡ w.publishers_by_rcl)
    × (w'.publishers_by_rmw ≡ w.publishers_by_rmw)
    × (w'.publishers ≡ w.publishers)
    × (w'.subscribers_by_rmw ≡ w.subscribers_by_rmw)
    × (w'.subscribers ≡ w.subscribers)

-- `process_rclcpp_publish` always returns: a new message with the address and the time of the event,
-- which is found by this address in the rclcpp layer. No publisher or
-- subscriber is touched.
pub rclcpp_publish-starts :
    (e : RclcppPublish) (t : Time) (c : ContextId) (w : World)
    → Returns (process_rclcpp_publish e t c w) (λ m w'.
      (w'.published_messages_by_rclcpp (into_id e.message c) ≡ some m)
      × (w'.publications.cell m
          ≡ some (record (PublicationMessage.new e.message) { rclcpp_publish_time = known t }))
      × SameEndpoints w w')
unfolding process_rclcpp_publish actions PublicationMessage.new PublicationMessage.rclcpp_publish
    is_unknown
rclcpp_publish-starts e t c w = ground (arith, id_eq_refl (into_id e.message c))

-- `process_rcl_publish` hands a message that rclcpp published over to the rcl layer: it is found there
-- only, with the publisher of the event's handle and the time of the event, and the rest of it as it
-- was. No publisher or
-- subscriber is touched.
pub rcl_publish-joins :
    (e : RclPublish) (t : Time) (c : ContextId) (w : World) (m p : Ref)
    (message : PublicationMessage)
    → w.published_messages_by_rclcpp (into_id e.message c) ≡ some m
    → w.publications.cell m ≡ some message
    → message.publisher ≡ unknown
    → message.rcl_publish_time ≡ unknown
    → w.publishers_by_rcl (into_id e.publisher_handle c) ≡ some p
    → Returns (process_rcl_publish e t c w) (λ m' w'.
      (m' ≡ m)
      × (w'.published_messages_by_rclcpp (into_id e.message c) ≡ none)
      × (w'.published_messages_by_rcl (into_id e.message c) ≡ some m)
      × (w'.publications.cell m
          ≡ some (record message { publisher = known p; rcl_publish_time = known t }))
      × SameEndpoints w w')
unfolding process_rcl_publish unwrap_or_new actions PublicationMessage.set_publisher
    PublicationMessage.rcl_publish is_unknown
rcl_publish-joins e t c w m p message found cell no_publisher no_time publisher =
    ground (arith, id_eq_refl (into_id e.message c))

topic_eq-same : (topic : Known String) → topic_eq topic topic ≡ true
unfolding topic_eq known_eq
topic_eq-same unknown = refl
topic_eq-same (known topic) = str_eq_refl topic

-- `process_rmw_publish` hands a message that rcl published over to the readers: it leaves the rcl
-- layer, gets the two times of the event, and is found by its source timestamp and the topic of its
-- publisher, where the rmw handle of the event leads to this publisher. The rclcpp layer, the
-- publishers and the subscribers are as they were.
pub rmw_publish-publishes :
    (e : RmwPublish) (t : Time) (c : ContextId) (w : World) (m p : Ref) (h : ℕ) (timestamp : ℤ)
    (message : PublicationMessage) (publisher : Publisher)
    → w.published_messages_by_rcl (into_id e.message c) ≡ some m
    → w.publications.cell m ≡ some message
    → message.publisher ≡ known p
    → message.rmw_publish_time ≡ unknown
    → message.sender_timestamp ≡ unknown
    → e.rmw_publisher_handle ≡ some h
    → w.publishers_by_rmw (into_id h c) ≡ some p
    → w.publishers.cell p ≡ some publisher
    → e.timestamp ≡ some timestamp
    → Returns (process_rmw_publish e t c w) (λ m' w'.
      (m' ≡ m)
      × (w'.published_messages_by_rcl (into_id e.message c) ≡ none)
      × (w'.published_messages_by_rclcpp ≡ w.published_messages_by_rclcpp)
      × (w'.published_messages timestamp publisher.topic_name ≡ some m)
      × (w'.publications.cell m
          ≡ some
              (record message { rmw_publish_time = known t; sender_timestamp = known timestamp }))
      × SameEndpoints w w')
unfolding process_rmw_publish unwrap_or_new publisher_by_rmw topic_of_publication both_publishers
    record_publication insert_published actions PublicationMessage.rmw_publish is_unknown
    into_option
rmw_publish-publishes e t c w m p h timestamp message publisher found cell of_p no_time no_stamp
      handle by_rmw is_publisher stamp =
    ground (
      arith,
      id_eq_refl (into_id e.message c),
      ==_refl p,
      int_eq_refl timestamp,
      topic_eq-same publisher.topic_name,
    )

-- The three layers one after another, for one message address.
unfoldable pub publish_through :
    (message publisher_handle rmw_publisher_handle : ℕ)
    → (timestamp : ℤ) → (t₁ t₂ t₃ : Time) → ContextId
    → M Ref
publish_through message publisher_handle rmw_publisher_handle timestamp t₁ t₂ t₃ c = do
  process_rclcpp_publish (record { message = message }) t₁ c
  process_rcl_publish (record { publisher_handle = publisher_handle; message = message }) t₂ c
  process_rmw_publish
      (record {
        rmw_publisher_handle = some rmw_publisher_handle;
        message = message;
        timestamp = some timestamp;
      })
      t₃ c

-- A message that passes through rclcpp, rcl and rmw under one address, with a publisher whose rcl and
-- rmw handles are both known, comes out as one message: it has all three times, the source timestamp
-- and the publisher, readers find it by the source timestamp and the publisher's topic, and its
-- address is free again in both layers above. No publisher or subscriber is touched.
pub publish_through-publishes :
    (a h h' : ℕ) (timestamp : ℤ) (t₁ t₂ t₃ : Time) (c : ContextId) (w : World) (p : Ref)
    (publisher : Publisher)
    → w.publishers_by_rcl (into_id h c) ≡ some p
    → w.publishers_by_rmw (into_id h' c) ≡ some p
    → w.publishers.cell p ≡ some publisher
    → Returns (publish_through a h h' timestamp t₁ t₂ t₃ c w) (λ m w'.
      (w'.publications.cell m
        ≡ some (record {
          ptr = a;
          publisher = known p;
          sender_timestamp = known timestamp;
          rmw_publish_time = known t₃;
          rcl_publish_time = known t₂;
          rclcpp_publish_time = known t₁;
        }))
      × (w'.published_messages timestamp publisher.topic_name ≡ some m)
      × (w'.published_messages_by_rclcpp (into_id a c) ≡ none)
      × (w'.published_messages_by_rcl (into_id a c) ≡ none)
      × SameEndpoints w w')
unfolding publish_through ◌>>=◌ PublicationMessage.new
publish_through-publishes a h h' timestamp t₁ t₂ t₃ c w p publisher by_rcl by_rmw is_publisher =
    and_then-Returns (process_rclcpp_publish (record { message = a }) t₁ c w) _ _ _
      (rclcpp_publish-starts (record { message = a }) t₁ c w)
      (λ m w₁ s.
        and_then-Returns
          (process_rcl_publish (record { publisher_handle = h; message = a }) t₂ c w₁) _ _ _
          (rcl_publish-joins (record { publisher_handle = h; message = a }) t₂ c w₁ m p _ s.0 s.1
            refl refl (grind (arith, s.2, by_rcl)))
          (λ m₂ w₂ s₂.
            Returns-weaken
              (process_rmw_publish
                (record { rmw_publisher_handle = some h'; message = a; timestamp = some timestamp })
                t₃ c w₂)
              _ _
              (rmw_publish-publishes _ t₃ c w₂ m p h' timestamp _ publisher s₂.2 s₂.3 refl refl refl
                refl (grind (arith, s.2, s₂.4, by_rmw)) (grind (arith, s.2, s₂.4, is_publisher))
                refl)
              (λ m₃ w₃ s₃. grind (arith, s.2, s₂.1, s₂.4))))

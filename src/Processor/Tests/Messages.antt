-- ===== src/Processor/Tests/Messages.antt =====
-- Messages between a talker and a listener.
use ros2trace_analyzer.Common.{◌≡◌, refl, pos, some, arith}
use ros2trace_analyzer.Utils.Known.{known}
use ros2trace_analyzer.Model.SubscriptionMessage.{fully}
use ros2trace_analyzer.Processor.State.{World}
use ros2trace_analyzer.Processor.Id.{into_id}
use ros2trace_analyzer.Processor.Exec.{Shows}
use ros2trace_analyzer.Processor.Publications.{process_rclcpp_publish, process_rcl_publish}
use ros2trace_analyzer.Processor.Publications.Pipeline.{
  rmw_publish-publishes, publish_through-publishes,
}
use ros2trace_analyzer.Processor.Takes.Matching.{rmw_take-origin}
use ros2trace_analyzer.Processor.Takes.{process_rcl_take}
use ros2trace_analyzer.Processor.Takes.Layers.{rmw_take-takes}
use ros2trace_analyzer.Processor.Transport.{transport, transport-matches}
use ros2trace_analyzer.Processor.Tests.Data.{
  steps, after, here, with_topic, with_publication, with_message, take_event,
}

publish_through-publishes_example :
    with_publication.published_messages (pos 5) (known "/chatter") ≡ some 0
unfolding steps
publish_through-publishes_example =
    (publish_through-publishes 90 30 40 (pos 5) (pos 1) (pos 2) (pos 3) here with_topic 0 _ refl
      refl refl).1

abbrev at_rclcpp : World
at_rclcpp = after (process_rclcpp_publish (record { message = 90 }) (pos 1) here with_topic)

abbrev at_rcl : World
at_rcl =
    after
      (process_rcl_publish (record { publisher_handle = 30; message = 90 }) (pos 2) here at_rclcpp)

rmw_publish-publishes_example :
    with_publication.published_messages (pos 5) (known "/chatter") ≡ some 0
unfolding steps
rmw_publish-publishes_example =
    (rmw_publish-publishes
      (record { rmw_publisher_handle = some 40; message = 90; timestamp = some (pos 5) }) (pos 3)
      here at_rcl 0 0 40 (pos 5) _ _ refl refl refl refl refl refl refl refl refl).3

-- The listener takes the message of the talker.
rmw_take-origin_example : Shows (with_message.subscriptions.cell 0) (λ m. m.message ≡ fully 0)
unfolding steps
rmw_take-origin_example =
    (rmw_take-origin take_event (pos 6) here with_publication {r = 0} {w' = with_message} refl).0

transport-matches_example :
    Shows
      ((after (
          transport 90 30 40
            (pos 5)
            (pos 1)
            (pos 2)
            (pos 3)
            (pos 6)
            take_event
            here
            here
            with_topic)).subscriptions.cell
        0)
      (λ message. (message.message ≡ fully 0) × (message.rmw_receive_time ≡ known (pos 6)))
unfolding steps transport
transport-matches_example =
    (transport-matches 90 30 40 (pos 1) (pos 2) (pos 3) (pos 6) take_event here here with_topic 0 0
      _ _ refl refl refl refl refl refl refl refl).0

rmw_take-takes_example : with_message.received_messages (into_id 91 here) ≡ some 0
unfolding steps
rmw_take-takes_example =
    (rmw_take-takes take_event (pos 6) here with_publication 0 _ refl refl refl (omega arith)).1

abbrev with_rcl_take : World
with_rcl_take = after (process_rcl_take (record { message = 91 }) (pos 7) here with_message)

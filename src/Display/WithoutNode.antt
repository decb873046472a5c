-- ===== src/Display/WithoutNode.antt =====
-- The texts of src/model/display.rs for the parts of a node, which leave the node out.
use Prim.Native.String.{◌++◌}
use ros2trace_analyzer.Common.{String, Ref, false}
use ros2trace_analyzer.Utils.Known.{Known}
use ros2trace_analyzer.Utils.Format.{decimal, hex}
use ros2trace_analyzer.Model.Publisher.{Publisher}
use ros2trace_analyzer.Model.Subscriber.{Subscriber}
use ros2trace_analyzer.Model.Service.{Service}
use ros2trace_analyzer.Model.Client.{Client}
use ros2trace_analyzer.Model.Timer.{Timer}
use ros2trace_analyzer.Processor.State.{World}
use ros2trace_analyzer.Utils.Known.{known}
use ros2trace_analyzer.Display.{Environment, Printer, text, between}
use ros2trace_analyzer.Display.Objects.{
  known_debug, known_decimal, known_duration, known_hex, handles_text, callback_of_text,
}

module _ (env : Environment) (w : World) where
  unfoldable pub publisher_without_node : Publisher → Printer
  unfolding handles_text known_debug known_decimal
  publisher_without_node p = text (
      "(topic="
      ++ (known_debug env w p.topic_name
          ++ (", "
              ++ (handles_text p.rmw_handle p.rcl_handle p.rclcpp_handle
                  ++ (", queue_depth=" ++ (known_decimal p.queue_depth ++ ")"))))))

  -- The callback is shown, behind the text in front of it.
  unfoldable pub with_callback : String → Known Ref → Printer
  unfolding callback_of_text between
  with_callback before callback held =
      between before ")" (callback_of_text env w false callback held)

  unfoldable pub subscriber_without_node : Subscriber → Printer
  unfolding with_callback handles_text known_debug known_decimal
  subscriber_without_node s =
      with_callback
        ("(topic="
          ++ (known_debug env w s.topic_name
              ++ (", "
                  ++ (handles_text s.rmw_handle s.rcl_handle s.rclcpp_handle
                      ++ (", queue_depth=" ++ (known_decimal s.queue_depth ++ ", callback="))))))
        s.callback

  unfoldable pub service_without_node : Service → Printer
  unfolding with_callback handles_text known_debug
  service_without_node s =
      with_callback
        ("(service="
          ++ (known_debug env w s.name
              ++ (", "
                  ++ (handles_text s.rmw_handle (known s.rcl_handle) s.rclcpp_handle
                      ++ ", callback="))))
        s.callback

  unfoldable pub client_without_node : Client → Printer
  unfolding known_debug known_hex
  client_without_node c = text (
      "(service="
      ++ (known_debug env w c.service_name
          ++ (", handles={rmw="
              ++ (known_hex c.rmw_handle ++ (", rcl=" ++ (hex c.rcl_handle ++ "})"))))))

  unfoldable pub timer_without_node : Timer → Printer
  unfolding with_callback known_duration
  timer_without_node t =
      with_callback
        ("(period="
          ++ (known_duration t.period
              ++ (", rcl_handle=" ++ (decimal t.rcl_handle ++ ", callback="))))
        t.callback

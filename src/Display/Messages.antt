-- ===== src/Display/Messages.antt =====
-- `Display` of the messages and the instances of src/model/mod.rs, in src/model/display.rs. The guards of the
-- publisher and of the subscriber are held while the rest is shown.
use Prim.Native.String.{◌++◌}
use ros2trace_analyzer.Common.{String, Ref, false, ok}
use ros2trace_analyzer.Utils.Known.{Known, known, unknown}
use ros2trace_analyzer.Utils.Format.{hex}
use ros2trace_analyzer.Model.PublicationMessage.{PublicationMessage, Time}
use ros2trace_analyzer.Model.SubscriptionMessage.{
  SubscriptionMessage, PartiallyKnown, fully, partially,
}
use ros2trace_analyzer.Model.CallbackInstance.{CallbackInstance}
use ros2trace_analyzer.Model.SpinInstance.{SpinInstance}
use ros2trace_analyzer.Processor.State.{World}
use ros2trace_analyzer.Analysis.Base.{◌>>=◌}
use ros2trace_analyzer.Display.{
  Environment, LockType, Printer, between, text, with_lock, arc_weak_mutex_text,
}
use ros2trace_analyzer.Display.Objects.{
  known_time, node_text, publisher_text, subscriber_text, callback_text, large_duration_text,
}

module _ (env : Environment) (w : World) where
  -- The publisher of a message, locked, behind the text in front of it.
  unfoldable pub publisher_of_text : String → Known Ref → Printer
  unfolding between
  publisher_of_text before (known r) held =
      with_lock LockType.publisher w.publishers r
        (λ p held'. between before ")" (publisher_text env w false p held')) held
  publisher_of_text before unknown held = ok (before ++ "Unknown)")

  unfoldable pub publication_text : PublicationMessage → Printer
  unfolding publisher_of_text
  publication_text m =
      publisher_of_text
        ("(ptr="
          ++ (hex m.ptr
              ++ (", sender_timestamp="
                  ++ (known_time env w m.sender_timestamp ++ ", publisher="))))
        m.publisher

  -- The publication is locked while it and the subscriber are shown.
  unfoldable pub message_and_subscriber : String → Printer → PublicationMessage → Printer
  unfolding publication_text
  message_and_subscriber before subscriber publication held = do
    m ← publication_text publication held
    s ← subscriber held
    ok (before ++ (m ++ (", subscriber=" ++ (s ++ ")"))))

  -- The message that was taken, as far as it is known, and the text of its subscriber.
  unfoldable pub taken_text : String → PartiallyKnown Ref Time → Printer → Printer
  unfolding message_and_subscriber between
  taken_text before (fully r) subscriber held =
      with_lock LockType.publication w.publications r (message_and_subscriber before subscriber)
        held
  taken_text before (partially timestamp) subscriber held =
      between (before ++ ("(sender_timestamp=" ++ (env.time timestamp ++ "), subscriber="))) ")"
        (subscriber held)
  taken_text before PartiallyKnown.unknown subscriber held =
      between (before ++ "Unknown, subscriber=") ")" (subscriber held)

  -- The subscriber is locked while the message is shown.
  unfoldable pub subscriber_of_text : String → PartiallyKnown Ref Time → Known Ref → Printer
  unfolding taken_text
  subscriber_of_text before message (known r) held =
      with_lock LockType.subscriber w.subscribers r
        (λ s. taken_text before message (subscriber_text env w false s)) held
  subscriber_of_text before message unknown held = taken_text before message (text "Unknown") held

  unfoldable pub subscription_text : SubscriptionMessage → Printer
  unfolding subscriber_of_text
  subscription_text m =
      subscriber_of_text ("(ptr=" ++ (hex m.ptr ++ ", message=")) m.message m.subscriber

  unfoldable pub instance_text : CallbackInstance → Printer
  unfolding between
  instance_text i held =
      with_lock LockType.callback w.callbacks i.callback
        (λ c held'.
          between
            ("(start_time="
              ++ (env.time i.start_time
                  ++ (", end_time=" ++ (known_time env w i.end_time ++ ", callback="))))
            ")" (callback_text env w false c held'))
        held

  unfoldable pub spin_text : SpinInstance → Printer
  unfolding between
  spin_text s held =
      between "(node="
        (", start_time="
          ++ (env.time s.start_time
              ++ (", end_time="
                  ++ (known_time env w s.end_time
                      ++ (", timeout=" ++ (large_duration_text s.timeout ++ ")"))))))
        (arc_weak_mutex_text env.node_alive LockType.node w.nodes (node_text env w) false s.node
          held)

-- ===== src/Display/Deadlock/Messages.antt =====
-- The texts of messages, instances and spins take no lock that is held already.
use ros2trace_analyzer.Common.{String, Ref, false, refl, [], ◌∷◌}
use ros2trace_analyzer.Utils.Known.{Known, known, unknown}
use ros2trace_analyzer.Model.PublicationMessage.{PublicationMessage, Time}
use ros2trace_analyzer.Model.SubscriptionMessage.{
  SubscriptionMessage, PartiallyKnown, fully, partially,
}
use ros2trace_analyzer.Model.CallbackInstance.{CallbackInstance}
use ros2trace_analyzer.Model.SpinInstance.{SpinInstance}
use ros2trace_analyzer.Processor.State.{World}
use ros2trace_analyzer.Display.{Environment, LockType, Held, Printer}
use ros2trace_analyzer.Display.Messages.{
  publisher_of_text, publication_text, message_and_subscriber, taken_text, subscriber_of_text,
  subscription_text, instance_text, spin_text,
}
use ros2trace_analyzer.Display.Shows.{
  Shows, shows, IsFree, bind-Shows, between-Shows, with_lock-Shows, arc_weak_mutex_text-Shows,
}
use ros2trace_analyzer.Display.Deadlock.{
  node_text-Shows, publisher_text-Shows, subscriber_text-Shows, callback_of_text-Shows,
  callback_text-Shows,
}

module _ (env : Environment) (w : World) where
  -- The publisher and its node are not locked.
  pub record PublisherIsFree (held : Held) : Type 0 where
    pub publisher_free : IsFree LockType.publisher held
    pub node_free : IsFree LockType.node held

  publisher_of_text-Shows :
      (before : String) (k : Known Ref) (held : Held)
      → PublisherIsFree held
      → Shows (publisher_of_text env w before k held)
  unfolding publisher_of_text
  publisher_of_text-Shows before (known r) held free =
      with_lock-Shows _ _ _ r held free.publisher_free
        (λ p. between-Shows _ _ (publisher_text-Shows env w false p _ free.node_free))
  publisher_of_text-Shows before unknown held free = shows

  pub publication_text-Shows :
      (m : PublicationMessage) (held : Held)
      → PublisherIsFree held
      → Shows (publication_text env w m held)
  unfolding publication_text
  publication_text-Shows m held free = publisher_of_text-Shows _ m.publisher held free

  module _ (before : String) (subscriber : Printer) (held : Held)
      (free : PublisherIsFree held) where
    taken_text-Shows :
        (m : PartiallyKnown Ref Time)
        → IsFree LockType.publication held
        → ((r : Ref) → Shows (subscriber ((LockType.publication, r) ∷ held)))
        → Shows (subscriber held)
        → Shows (taken_text env w before m subscriber held)
    unfolding taken_text message_and_subscriber
    taken_text-Shows (fully r) publication_free behind alone =
        with_lock-Shows _ _ _ r held publication_free (λ m.
          bind-Shows
            (publication_text-Shows m _
              (record { publisher_free = free.publisher_free; node_free = free.node_free }))
            (λ s. bind-Shows (behind r) (λ s'. shows)))
    taken_text-Shows (partially timestamp) publication_free behind alone = between-Shows _ _ alone
    taken_text-Shows PartiallyKnown.unknown publication_free behind alone = between-Shows _ _ alone

  -- A message is shown with no lock but its own.
  subscriber_of_text-Shows :
      (before : String) (m : PartiallyKnown Ref Time) (k : Known Ref) (r : Ref)
      → Shows (subscriber_of_text env w before m k ((LockType.subscription, r) ∷ []))
  unfolding subscriber_of_text
  subscriber_of_text-Shows before m (known q) r = with_lock-Shows _ _ _ q _ refl (λ s.
      taken_text-Shows before _ _ (record { publisher_free = refl; node_free = refl }) m refl
        (λ p.
          subscriber_text-Shows env w false _ refl s
            (callback_of_text-Shows env w false s.callback _ refl))
        (subscriber_text-Shows env w false _ refl s
          (callback_of_text-Shows env w false s.callback _ refl)))
  subscriber_of_text-Shows before m unknown r =
      taken_text-Shows before _ _ (record { publisher_free = refl; node_free = refl }) m refl
        (λ p. shows) shows

  pub subscription_text-Shows :
      (m : SubscriptionMessage) (r : Ref)
      → Shows (subscription_text env w m ((LockType.subscription, r) ∷ []))
  unfolding subscription_text
  subscription_text-Shows m r = subscriber_of_text-Shows _ m.message m.subscriber r

  pub instance_text-Shows :
      (i : CallbackInstance) (r : Ref)
      → Shows (instance_text env w i ((LockType.instance_lock, r) ∷ []))
  unfolding instance_text
  instance_text-Shows i r = with_lock-Shows _ _ _ i.callback _ refl (λ c. between-Shows _ _ (
      callback_text-Shows env w c _ (record {
        subscriber_free = refl;
        service_free = refl;
        timer_free = refl;
        node_free = refl;
      })))

  pub spin_text-Shows :
      (s : SpinInstance) (r : Ref) → Shows (spin_text env w s ((LockType.spin, r) ∷ []))
  unfolding spin_text
  spin_text-Shows s r = between-Shows _ _ (
      arc_weak_mutex_text-Shows _ _ w.nodes _ refl env.node_alive false s.node
        (λ q n. node_text-Shows env w n ((LockType.node, q) ∷ _)))

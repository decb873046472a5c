-- ===== src/Processor/Invariants/Objects/Defs.antt =====
-- The invariant, and that it speaks of each heap by itself.
use ros2trace_analyzer.Model.Node.Consistency.{IsConsistent as NodeOk}
use ros2trace_analyzer.Model.Subscriber.Consistency.{IsConsistent as SubscriberOk}
use ros2trace_analyzer.Model.Publisher.Consistency.{IsConsistent as PublisherOk}
use ros2trace_analyzer.Model.Service.Consistency.{IsConsistent as ServiceOk}
use ros2trace_analyzer.Model.Client.Consistency.{IsConsistent as ClientOk}
use ros2trace_analyzer.Model.Callback.Consistency.{IsConsistent as CallbackOk}
use ros2trace_analyzer.Model.PublicationMessage.Consistency.{IsConsistent as PublicationMessageOk}
use ros2trace_analyzer.Model.SubscriptionMessage.Consistency.{IsReceived as SubscriptionMessageOk}
use ros2trace_analyzer.Model.SpinInstance.Consistency.{IsConsistent as SpinInstanceOk}
use ros2trace_analyzer.Processor.State.{World, init}
use ros2trace_analyzer.Processor.Exec.Objects.{AllCells, Tracks}
use ros2trace_analyzer.Processor.Fields

abbrev pub ObjectsAreConsistent : World → Type 0
ObjectsAreConsistent w =
    AllCells NodeOk w.nodes.cell
    × AllCells SubscriberOk w.subscribers.cell
    × AllCells PublisherOk w.publishers.cell
    × AllCells ServiceOk w.services.cell
    × AllCells ClientOk w.clients.cell
    × AllCells CallbackOk w.callbacks.cell
    × AllCells PublicationMessageOk w.publications.cell
    × AllCells SubscriptionMessageOk w.subscriptions.cell
    × AllCells SpinInstanceOk w.spins.cell

pub init-ObjectsAreConsistent : ObjectsAreConsistent init
init-ObjectsAreConsistent = (
  λ r a e. cc,
  λ r a e. cc,
  λ r a e. cc,
  λ r a e. cc,
  λ r a e. cc,
  λ r a e. cc,
  λ r a e. cc,
  λ r a e. cc,
  λ r a e. cc,
)

pub nodes-Tracks : Tracks ObjectsAreConsistent Fields.nodes NodeOk
nodes-Tracks = record {
  out = λ w p. p.0;
  into = λ h w p q. (q, p.1, p.2, p.3, p.4, p.5, p.6, p.7, p.8);
}

pub subscribers-Tracks : Tracks ObjectsAreConsistent Fields.subscribers SubscriberOk
subscribers-Tracks = record {
  out = λ w p. p.1;
  into = λ h w p q. (p.0, q, p.2, p.3, p.4, p.5, p.6, p.7, p.8);
}

pub publishers-Tracks : Tracks ObjectsAreConsistent Fields.publishers PublisherOk
publishers-Tracks = record {
  out = λ w p. p.2;
  into = λ h w p q. (p.0, p.1, q, p.3, p.4, p.5, p.6, p.7, p.8);
}

pub services-Tracks : Tracks ObjectsAreConsistent Fields.services ServiceOk
services-Tracks = record {
  out = λ w p. p.3;
  into = λ h w p q. (p.0, p.1, p.2, q, p.4, p.5, p.6, p.7, p.8);
}

pub clients-Tracks : Tracks ObjectsAreConsistent Fields.clients ClientOk
clients-Tracks = record {
  out = λ w p. p.4;
  into = λ h w p q. (p.0, p.1, p.2, p.3, q, p.5, p.6, p.7, p.8);
}

pub callbacks-Tracks : Tracks ObjectsAreConsistent Fields.callbacks CallbackOk
callbacks-Tracks = record {
  out = λ w p. p.5;
  into = λ h w p q. (p.0, p.1, p.2, p.3, p.4, q, p.6, p.7, p.8);
}

pub publications-Tracks : Tracks ObjectsAreConsistent Fields.publications PublicationMessageOk
publications-Tracks = record {
  out = λ w p. p.6;
  into = λ h w p q. (p.0, p.1, p.2, p.3, p.4, p.5, q, p.7, p.8);
}

pub subscriptions-Tracks : Tracks ObjectsAreConsistent Fields.subscriptions SubscriptionMessageOk
subscriptions-Tracks = record {
  out = λ w p. p.7;
  into = λ h w p q. (p.0, p.1, p.2, p.3, p.4, p.5, p.6, q, p.8);
}

pub spins-Tracks : Tracks ObjectsAreConsistent Fields.spins SpinInstanceOk
spins-Tracks = record {
  out = λ w p. p.8;
  into = λ h w p q. (p.0, p.1, p.2, p.3, p.4, p.5, p.6, p.7, q);
}

pub ruleset heaps = (
  nodes-Tracks, subscribers-Tracks, publishers-Tracks, services-Tracks, clients-Tracks,
  callbacks-Tracks, publications-Tracks, subscriptions-Tracks, spins-Tracks,
)

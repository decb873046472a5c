-- ===== src/Processor/State.antt =====
-- The state of the processor: the maps of `Processor` in src/processor/mod.rs, and the objects that
-- they share through `Arc<Mutex<T>>`, in one heap for each type.
use ros2trace_analyzer.Common.{
  ℕ, ℤ, String, Ref, Bool, Option, none, some, List, [], ◌&&◌, ◌==◌, int_eq, str_eq, if◌then◌else◌,
}
use ros2trace_analyzer.Utils.Known.{Known, known_eq}
use ros2trace_analyzer.Model.Node.{Node}
use ros2trace_analyzer.Model.Subscriber.{Subscriber}
use ros2trace_analyzer.Model.Publisher.{Publisher}
use ros2trace_analyzer.Model.Service.{Service}
use ros2trace_analyzer.Model.Client.{Client}
use ros2trace_analyzer.Model.Timer.{Timer}
use ros2trace_analyzer.Model.Callback.{Callback}
use ros2trace_analyzer.Model.CallbackInstance.{CallbackInstance}
use ros2trace_analyzer.Model.PublicationMessage.{PublicationMessage}
use ros2trace_analyzer.Model.SubscriptionMessage.{SubscriptionMessage}
use ros2trace_analyzer.Model.SpinInstance.{SpinInstance}
use ros2trace_analyzer.Processor.Id.{HandleId, id_eq}

-- The cells from `next` on are free; one below it holds the object that was put there last.
pub record Heap (A : Type 0) : Type 0 where
  pub next : Ref
  pub cell : Ref → Option A

abbrev pub empty_heap : {A : Type 0} → Heap A
empty_heap = record { next = 0; cell = λ _. none }

abbrev pub update : {A : Type 0} → (Ref → Option A) → Ref → A → Ref → Option A
update f r a q = if r == q then some a else f q

-- `HashMap<Id<u64>, Arc<Mutex<T>>>`.
abbrev pub Map : Type 0
Map = HandleId → Option Ref

abbrev pub map_insert : Map → HandleId → Ref → Map
map_insert m k r j = if id_eq k j then some r else m j

abbrev pub map_remove : Map → HandleId → Map
map_remove m k j = if id_eq k j then none else m j

-- `HashMap<(i64, Known<String>), Arc<Mutex<PublicationMessage>>>`.
abbrev pub MessageMap : Type 0
MessageMap = ℤ → Known String → Option Ref

unfoldable pub topic_eq : Known String → Known String → Bool
unfolding known_eq
topic_eq a b = known_eq str_eq a b

abbrev pub message_insert : MessageMap → ℤ → Known String → Ref → MessageMap
message_insert m t topic r t' topic' =
    if int_eq t t' && topic_eq topic topic' then some r else m t' topic'

pub record World : Type 0 where
  pub hostname_to_host_id : List (String × ℕ)
  pub nodes_by_rcl : Map
  pub subscribers_by_rmw : Map
  pub subscribers_by_rcl : Map
  pub subscribers_by_rclcpp : Map
  pub publishers_by_rmw : Map
  pub publishers_by_rcl : Map
  pub services_by_rcl : Map
  pub clients_by_rcl : Map
  pub timers_by_rcl : Map
  pub callbacks_by_id : Map
  pub published_messages : MessageMap
  pub received_messages : Map
  pub published_messages_by_rclcpp : Map
  pub published_messages_by_rcl : Map
  pub nodes : Heap Node
  pub subscribers : Heap Subscriber
  pub publishers : Heap Publisher
  pub services : Heap Service
  pub clients : Heap Client
  pub timers : Heap Timer
  pub callbacks : Heap Callback
  pub instances : Heap CallbackInstance
  pub publications : Heap PublicationMessage
  pub subscriptions : Heap SubscriptionMessage
  pub spins : Heap SpinInstance

abbrev pub no_entries : Map
no_entries _ = none

abbrev pub init : World
init = record {
  hostname_to_host_id = [];
  nodes_by_rcl = no_entries;
  subscribers_by_rmw = no_entries;
  subscribers_by_rcl = no_entries;
  subscribers_by_rclcpp = no_entries;
  publishers_by_rmw = no_entries;
  publishers_by_rcl = no_entries;
  services_by_rcl = no_entries;
  clients_by_rcl = no_entries;
  timers_by_rcl = no_entries;
  callbacks_by_id = no_entries;
  published_messages = λ _ _. none;
  received_messages = no_entries;
  published_messages_by_rclcpp = no_entries;
  published_messages_by_rcl = no_entries;
  nodes = empty_heap;
  subscribers = empty_heap;
  publishers = empty_heap;
  services = empty_heap;
  clients = empty_heap;
  timers = empty_heap;
  callbacks = empty_heap;
  instances = empty_heap;
  publications = empty_heap;
  subscriptions = empty_heap;
  spins = empty_heap;
}

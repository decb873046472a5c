-- ===== src/Model.antt =====
-- src/model/mod.rs: the objects that a trace describes, one module for each.
pub mod Tests
pub mod Name
pub mod Gid
pub mod Node
pub mod Subscriber
pub mod Publisher
pub mod Service
pub mod Client
pub mod Timer
pub mod Callback
pub mod PublicationMessage
pub mod SubscriptionMessage
pub mod CallbackInstance
pub mod SpinInstance

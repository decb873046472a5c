-- ===== src/Common/Outcome.antt =====
-- What a call can come to: a value, an error of the program's own (src/processor/error.rs and the
-- error structs of src/model/mod.rs), or a fault that ends the run.
use Prim.Native.Nat.{ℕ}
use Prim.Native.String.{String}

-- The address of an object that is shared through `Arc<Mutex<T>>`.
abbrev pub Ref : Type 0
Ref = ℕ

pub data Fault : Type 0 where
  -- A failed `assert!`, `expect` or `unwrap`.
  panic : Fault
  -- A lock that the same thread holds already.
  deadlock : Fault
  -- An address that holds no object. Rust excludes it; the model's heaps do by an invariant.
  dangling : Fault

pub data Object : Type 0 where
  node : Ref → Object
  subscriber : Ref → Object
  publisher : Ref → Object
  service : Ref → Object
  client : Ref → Object
  timer : Ref → Object
  callback : Ref → Object
  published_message : Ref → Object
  subscribed_message : Ref → Object

pub data ObjectType : Type 0 where
  node subscriber publisher service client timer callback published_message subscribed_message :
      ObjectType

pub as_type : Object → ObjectType
as_type (Object.node _) = ObjectType.node
as_type (Object.subscriber _) = ObjectType.subscriber
as_type (Object.publisher _) = ObjectType.publisher
as_type (Object.service _) = ObjectType.service
as_type (Object.client _) = ObjectType.client
as_type (Object.timer _) = ObjectType.timer
as_type (Object.callback _) = ObjectType.callback
as_type (Object.published_message _) = ObjectType.published_message
as_type (Object.subscribed_message _) = ObjectType.subscribed_message

pub record NotFound : Type 0 where
  pub key : ℕ
  pub object_type : ObjectType
  pub key_variable : String

pub record AlreadyExists : Type 0 where
  pub key : ℕ
  pub key_variable : String
  pub new_object : Object
  pub old_object : Object

pub data Error : Type 0 where
  already_initialized : (object event_name : String) → Error
  already_set : (msg : String) → Error
  not_found : NotFound → Error
  object_missing_dependency : Object → NotFound → Error
  already_exists : AlreadyExists → Error

pub data Result {ℓ} (A : Type ℓ) : Type ℓ where
  ok : A → Result A
  err : Error → Result A
  fault : Fault → Result A

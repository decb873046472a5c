-- ===== src/Display.antt =====
-- src/model/display.rs: the text of the objects. An object is shown while its lock is held, and it shows others that
-- it refers to: the locks that are held are passed along, and one that is taken twice is a deadlock
-- (`std::sync::Mutex` is not reentrant).
pub mod Objects
pub mod Messages
pub mod WithoutNode
pub mod Summary
pub mod Events
pub mod Shows
pub mod Deadlock
pub mod Tests
use Prim.Native.Char.{Char}
use Prim.Native.String.{◌++◌}
use ros2trace_analyzer.Common.{
  ℕ, ◌==◌, Ref, Bool, true, false, ◌&&◌, ◌||◌, String, List, [], ◌∷◌, Option, none, some, Result,
  ok, fault, deadlock, dangling, if◌then◌else◌,
}
use ros2trace_analyzer.Utils.Known.{Known, known, unknown}
use ros2trace_analyzer.Utils.ArcWeak.{ArcWeak, get_arc}
use ros2trace_analyzer.Model.PublicationMessage.{Time}
use ros2trace_analyzer.Processor.State.{Heap}
use ros2trace_analyzer.Processor.Callers.{Liveness}
use ros2trace_analyzer.Analysis.Base.{◌>>=◌}

-- What is not in src: the text of a date (`chrono`), the Unicode tables, and the reference counts.
pub record Environment : Type 0 where
  pub time : Time → String
  pub printable : Char → Bool
  pub node_alive : Ref → Bool
  pub alive : Liveness

pub data LockType : Type 0 where
  node subscriber publisher service client timer callback publication subscription instance_lock
        spin :
      LockType

abbrev pub index : LockType → ℕ
index LockType.node = 0
index LockType.subscriber = 1
index LockType.publisher = 2
index LockType.service = 3
index LockType.client = 4
index LockType.timer = 5
index LockType.callback = 6
index LockType.publication = 7
index LockType.subscription = 8
index LockType.instance_lock = 9
index LockType.spin = 10

-- The locks that are held: their objects' types and addresses.
abbrev pub Held : Type 0
Held = List (LockType × Ref)

abbrev pub holds : Held → LockType → Ref → Bool
holds [] t r = false
holds ((t', r') ∷ held) t r = (index t' == index t && r' == r) || holds held t r

abbrev pub Printer : Type 0
Printer = Held → Result String

abbrev pub text : String → Printer
text s held = ok s

-- `write!` of one value between two texts.
unfoldable pub between : String → String → Result String → Result String
between before behind shown = do s ← shown; ok (before ++ (s ++ behind))

-- `lock().unwrap()`, and what is shown while the lock is held.
unfoldable pub with_lock :
    {A B : Type 0} → LockType → Heap A → Ref → (A → Held → Result B) → Held → Result B
with_lock t h r show held =
    if holds held t r
    then fault deadlock
    else elim (h.cell r) [ none ↦ fault dangling | some a ↦ show a ((t, r) ∷ held) ]

-- `Display` of `Known`.
unfoldable pub known_text : {A : Type 0} → (A → Printer) → Known A → Printer
known_text show (known value) held = show value held
known_text show unknown held = ok "Unknown"

-- `Display` of `DisplayArcMutex`; `show` is the alternate form of what it shows.
unfoldable pub arc_mutex_text :
    {A : Type 0} → LockType → Heap A → (A → Printer) → Bool → Ref → Printer
arc_mutex_text t h show true r held = ok "..."
arc_mutex_text t h show false r held = with_lock t h r show held

-- An upgraded reference, or none.
unfoldable pub upgraded_text :
    {A : Type 0} → LockType → Heap A → (A → Printer) → Option Ref → Printer
upgraded_text t h show none held = ok "DROPPED"
upgraded_text t h show (some r) held = with_lock t h r show held

-- `Display` of `DisplayArcWeakMutex`; `show` is the alternate form of what it shows.
unfoldable pub arc_weak_mutex_text :
    {A : Type 0} → (Ref → Bool) → LockType → Heap A → (A → Printer) → Bool → ArcWeak → Printer
arc_weak_mutex_text alive t h show true reference held = ok "..."
arc_weak_mutex_text alive t h show false reference held =
    upgraded_text t h show (get_arc alive reference) held

-- `Display` of `DisplayArcWeakMutexMapped`: a function shows what is locked.
unfoldable pub arc_weak_mutex_mapped_text :
    {A : Type 0} → (Ref → Bool) → LockType → Heap A → (A → Printer) → ArcWeak → Printer
arc_weak_mutex_mapped_text alive t h display_fn reference held =
    upgraded_text t h display_fn (get_arc alive reference) held

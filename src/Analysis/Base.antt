-- ===== src/Analysis/Base.antt =====
-- What the analyses of src/analysis share: their steps return or panic (no step returns an error), they
-- lock the objects of the processor, and they subtract times. Subtraction and `debug_assert!` are those of
-- a build with debug assertions: an overflow of an `i64` panics.
use ros2trace_analyzer.Common.{
  ℕ, ℤ, ◌-ℤ◌, is_i64, String, Ref, Bool, true, false, Option, none, some, Result, ok, err, fault,
  panic, dangling, ◌&&◌, ◌==◌, str_eq, str_eq_iff, ◌≡◌, ◌↔◌, List, [], ◌∷◌, arith, if◌then◌else◌,
}
use ros2trace_analyzer.Model.PublicationMessage.{Time}
use ros2trace_analyzer.Events.Context.{Context}
use ros2trace_analyzer.Processor.State.{Heap}
use ros2trace_analyzer.Analysis.Table.{Key}

infixl 5 ◌>>=◌ ◌>>◌
abbrev pub ◌>>=◌ {ℓ κ} : {A : Type ℓ} {B : Type κ} → Result A → (A → Result B) → Result B
ok a >>= f = f a
err e >>= f = err e
fault x >>= f = fault x

abbrev pub ◌>>◌ {ℓ κ} : {A : Type ℓ} {B : Type κ} → Result A → Result B → Result B
m >> k = m >>= λ _. k

-- `assert!` and `debug_assert!`.
abbrev pub assert : Bool → Result (Unit {0})
assert true = ok tt
assert false = fault panic

-- `unwrap` and `expect` of an `Option`.
abbrev pub expect : {A : Type 0} → Option A → Result A
expect none = fault panic
expect (some a) = ok a

-- `insert(..).inspect(|old| panic!(..))`.
abbrev pub panic_on_some : {A : Type 0} → Option A → Result (Unit {0})
panic_on_some none = ok tt
panic_on_some (some old) = fault panic

abbrev pub is_empty : {A : Type 0} → List A → Bool
is_empty [] = true
is_empty (x ∷ xs) = false

-- `arc.lock().unwrap()`.
abbrev pub lock : {A : Type 0} → Heap A → Ref → Result A
lock h r = elim (h.cell r) [ none ↦ fault dangling | some a ↦ ok a ]

pub lock-some : {A : Type 0} (h : Heap A) (r : Ref) {a : A} → h.cell r ≡ some a → lock h r ≡ ok a
lock-some h r e = ground arith

-- `a.timestamp_nanos() - b.timestamp_nanos()`.
abbrev pub sub_times : Time → Time → Result ℤ
sub_times a b = let d = a -ℤ b in if is_i64 d then ok d else fault panic

-- A thread of a host.
pub record ThreadId : Type 0 where
  pub vtid : ℕ
  pub hostname : String

abbrev pub thread_of : Context → ThreadId
thread_of context = record { vtid = context.vtid; hostname = context.hostname }

abbrev pub thread_eq : ThreadId → ThreadId → Bool
thread_eq a b = a.vtid == b.vtid && str_eq a.hostname b.hostname

pub thread_eq_iff : (a b : ThreadId) → (thread_eq a b ≡ true) ↔ (a ≡ b)
thread_eq_iff a b = ground (arith, str_eq_iff a.hostname b.hostname)

instance abbrev pub thread_key : Key ThreadId
thread_key = record { same = thread_eq; same_iff = thread_eq_iff }

-- ===== src/Processor/Exec.antt =====
-- The methods of the processor as actions on its state: a method returns, or returns an error beside
-- the state that it has reached (what was written before an `Err` stays written), or faults.
-- `Arc`, `Mutex` and `HashMap` are read and written through a field of the state.
pub mod Keeps
pub mod Objects
use ros2trace_analyzer.Common.{
  String, Ref, Bool, true, false, Option, none, some, ◌+◌, Result, ok, err, fault, Fault, panic,
  dangling, Error, not_found, NotFound, ObjectType,
}
use ros2trace_analyzer.Processor.Id.{HandleId}
use ros2trace_analyzer.Processor.State.{World, Heap, Map, update, map_insert, map_remove}

pub data Run (A : Type 0) : Type 0 where
  done : A → World → Run A
  failed : Error → World → Run A
  faulted : Fault → Run A

abbrev pub M : Type 0 → Type 0
M A = World → Run A

abbrev pub and_then : {A B : Type 0} → Run A → (A → M B) → Run B
and_then (done a w) f = f a w
and_then (failed e w) f = failed e w
and_then (faulted x) f = faulted x

infixl 5 ◌>>=◌ ◌>>◌
unfoldable pub ◌>>=◌ : {A B : Type 0} → M A → (A → M B) → M B
◌>>=◌ m f w = and_then (m w) f

abbrev pub ◌>>◌ : {A B : Type 0} → M A → M B → M B
m >> k = m >>= λ _. k

unfoldable pub pure : {A : Type 0} → A → M A
pure a w = done a w

unfoldable pub raise : {A : Type 0} → Error → M A
raise e w = failed e w

unfoldable pub raise_fault : {A : Type 0} → Fault → M A
raise_fault x w = faulted x

-- `?` on a result that does not depend on the state.
unfoldable pub lift : {A : Type 0} → Result A → M A
lift (ok a) w = done a w
lift (err e) w = failed e w
lift (fault x) w = faulted x

-- `Result::expect`.
unfoldable pub expect : {A : Type 0} → Result A → M A
expect (ok a) w = done a w
expect (err e) w = faulted panic
expect (fault x) w = faulted x

-- `Option::expect`, `Option::unwrap`.
unfoldable pub expect_some : {A : Type 0} → Option A → M A
expect_some (some a) w = done a w
expect_some none w = faulted panic

-- A field of the state.
pub record Field (A : Type 0) : Type 0 where
  pub read : World → A
  pub write : A → World → World

module _ {A : Type 0} (f : Field (Heap A)) where
  -- `Arc::new(Mutex::new(a))`.
  unfoldable pub alloc : A → M Ref
  alloc a w =
      let h = f.read w in
      done h.next (f.write (record { next = h.next + 1; cell = update h.cell h.next a }) w)

  -- `arc.lock().unwrap()`, to read.
  unfoldable pub load : Ref → M A
  load r w = elim ((f.read w).cell r) [ none ↦ faulted dangling | some a ↦ done a w ]

  -- `arc.lock().unwrap()`, to write.
  unfoldable pub store : Ref → A → M (Unit {0})
  store r a w = let h = f.read w in done tt (f.write (record h { cell = update h.cell r a }) w)

-- A method of a shared object that cannot fail.
unfoldable pub modify : {A : Type 0} → Field (Heap A) → Ref → (A → A) → M (Unit {0})
modify f r g = do a ← load f r; store f r (g a)

-- A method of a shared object, called with `?`.
unfoldable pub call : {A : Type 0} → Field (Heap A) → Ref → (A → Result A) → M (Unit {0})
call f r g = do a ← load f r; a' ← lift (g a); store f r a'

-- A method of a shared object whose error is tested: was it carried out?
unfoldable pub attempt_with : {A : Type 0} → Field (Heap A) → Ref → Result A → M Bool
attempt_with f r (ok a) = store f r a >> pure true
attempt_with f r (err e) = pure false
attempt_with f r (fault x) = raise_fault x

unfoldable pub attempt : {A : Type 0} → Field (Heap A) → Ref → (A → Result A) → M Bool
attempt f r g = do a ← load f r; attempt_with f r (g a)

-- `HashMap::get`, `insert` (which returns the old value) and `remove`.
unfoldable pub get : Field Map → HandleId → M (Option Ref)
get f k w = done (f.read w k) w

unfoldable pub insert : Field Map → HandleId → Ref → M (Option Ref)
insert f k r w = done (f.read w k) (f.write (map_insert (f.read w) k r) w)

unfoldable pub remove : Field Map → HandleId → M (Option Ref)
remove f k w = done (f.read w k) (f.write (map_remove (f.read w) k) w)

-- `get_or_err` of src/processor/mod.rs.
unfoldable pub or_not_found : Option Ref → NotFound → M Ref
or_not_found none e = raise (not_found e)
or_not_found (some r) e = pure r

unfoldable pub get_or_err : Field Map → HandleId → String → ObjectType → M Ref
get_or_err f k key_name object_type = do
  found ← get f k
  or_not_found found (record { key = k.id; object_type = object_type; key_variable = key_name })

-- `entry(k).or_insert_with(..)`: the object of the entry, or a new one, which `make` builds.
unfoldable pub entry_or :
    {A : Type 0} → Field Map → Field (Heap A) → HandleId → M A → Option Ref → M Ref
entry_or f h k make (some r) = pure r
entry_or f h k make none = do a ← make; r ← alloc h a; insert f k r; pure r

unfoldable pub entry : {A : Type 0} → Field Map → Field (Heap A) → HandleId → M A → M Ref
entry f h k make = do found ← get f k; entry_or f h k make found

-- To unfold this is to unfold every action above.
unfoldable pub actions : Unit {0}
unfolding ◌>>=◌ pure raise raise_fault lift expect expect_some alloc load store modify call
    attempt_with attempt get insert remove or_not_found get_or_err entry_or entry
actions = tt

-- The object of a cell is there, and has `P`.
abbrev pub Shows : {A : Type 0} → Option A → (A → Type 0) → Type 0
Shows none P = ⊥
Shows (some a) P = P a

-- The run returns, with a value and a state for which `P` holds.
abbrev pub Returns : {A : Type 0} → Run A → (A → World → Type 0) → Type 0
Returns (done a w) P = P a w
Returns (failed e w) P = ⊥
Returns (faulted x) P = ⊥

-- A run goes on where the one before it returned.
pub and_then-Returns :
    {A B : Type 0} (x : Run A) (f : A → M B) (P : A → World → Type 0) (Q : B → World → Type 0)
    → Returns x P
    → ((a : A) (w : World) → P a w → Returns (f a w) Q)
    → Returns (and_then x f) Q
and_then-Returns (done a w) f P Q first next = next a w first
and_then-Returns (failed e w) f P Q first next = first
and_then-Returns (faulted x) f P Q first next = first

pub Returns-weaken :
    {A : Type 0} (x : Run A) (P Q : A → World → Type 0)
    → Returns x P
    → ((a : A) (w : World) → P a w → Q a w)
    → Returns x Q
Returns-weaken (done a w) P Q h next = next a w h
Returns-weaken (failed e w) P Q h next = h
Returns-weaken (faulted x) P Q h next = h

-- ===== src/Processor/Exec/Keeps.antt =====
-- Properties of the state that an action keeps, whether it returns or fails, with one rule for each
-- way to build an action. A property that does not read a field is kept by a write to it.
use ros2trace_analyzer.Common.{
  ◌≡◌, refl, String, Ref, true, false, Option, none, some, Result, ok, err, fault, dangling, Fault,
  Error, ObjectType, NotFound,
}
use ros2trace_analyzer.Processor.Id.{HandleId}
use ros2trace_analyzer.Processor.State.{World, Heap, Map}
use ros2trace_analyzer.Processor.Exec.{
  Run, and_then, done, failed, faulted, M, ◌>>=◌, pure, raise, raise_fault, lift, expect,
  expect_some, Field, alloc, load, store, modify, call, attempt_with, attempt, get, insert, remove,
  or_not_found, get_or_err, entry_or, entry,
}

abbrev pub Holds : {A : Type 0} → (World → Type 0) → Run A → Type 0
Holds P (done a w) = P w
Holds P (failed e w) = P w
Holds P (faulted x) = Unit

pub record Keeps {A : Type 0} (P : World → Type 0) (m : M A) : Type 0 where
  pub at : (w : World) → P w → Holds P (m w)

-- `P` does not depend on `f`.
abbrev pub Free : {A : Type 0} → (World → Type 0) → Field A → Type 0
Free {A} P f = (x : A) (w : World) → P w → P (f.write x w)

module _ {A : Type 0} {P : World → Type 0} where
  pub Keeps-pure : (a : A) → Keeps P (pure a)
  unfolding pure
  Keeps-pure a = record { at = λ w h. h }

  pub Keeps-raise : (e : Error) → Keeps P (raise {A = A} e)
  unfolding raise
  Keeps-raise e = record { at = λ w h. h }

  pub Keeps-raise_fault : (x : Fault) → Keeps P (raise_fault {A = A} x)
  unfolding raise_fault
  Keeps-raise_fault x = record { at = λ w h. tt }

  pub Keeps-lift : (r : Result A) → Keeps P (lift r)
  unfolding lift
  Keeps-lift (ok a) = record { at = λ w h. h }
  Keeps-lift (err e) = record { at = λ w h. h }
  Keeps-lift (fault x) = record { at = λ w h. tt }

  pub Keeps-expect : (r : Result A) → Keeps P (expect r)
  unfolding expect
  Keeps-expect (ok a) = record { at = λ w h. h }
  Keeps-expect (err e) = record { at = λ w h. tt }
  Keeps-expect (fault x) = record { at = λ w h. tt }

  pub Keeps-expect_some : (o : Option A) → Keeps P (expect_some o)
  unfolding expect_some
  Keeps-expect_some (some a) = record { at = λ w h. h }
  Keeps-expect_some none = record { at = λ w h. tt }

module _ {A B : Type 0} {P : World → Type 0} where
  bind-Holds :
      (r : Run A) (k : A → M B) → Holds P r → ((a : A) → Keeps P (k a)) → Holds P (and_then r k)
  bind-Holds (done a w) k h kk = (kk a).at w h
  bind-Holds (failed e w) k h kk = h
  bind-Holds (faulted x) k h kk = tt

  pub Keeps-bind :
      (m : M A) (k : A → M B) → Keeps P m → ((a : A) → Keeps P (k a)) → Keeps P (m >>= k)
  unfolding ◌>>=◌
  Keeps-bind m k km kk = record { at = λ w h. bind-Holds (m w) k (km.at w h) kk }

  pub Keeps-bind_lift :
      (r : Result A) (k : A → M B) → ((a : A) → r ≡ ok a → Keeps P (k a)) → Keeps P (lift r >>= k)
  unfolding ◌>>=◌ lift
  Keeps-bind_lift (ok a) k kk = kk a refl
  Keeps-bind_lift (err e) k kk = record { at = λ w h. h }
  Keeps-bind_lift (fault x) k kk = record { at = λ w h. tt }

  pub Keeps-bind_expect :
      (r : Result A) (k : A → M B) → ((a : A) → r ≡ ok a → Keeps P (k a)) → Keeps P (expect r >>= k)
  unfolding ◌>>=◌ expect
  Keeps-bind_expect (ok a) k kk = kk a refl
  Keeps-bind_expect (err e) k kk = record { at = λ w h. tt }
  Keeps-bind_expect (fault x) k kk = record { at = λ w h. tt }

  pub Keeps-bind_expect_some :
      (o : Option A) (k : A → M B)
      → ((a : A) → o ≡ some a → Keeps P (k a))
      → Keeps P (expect_some o >>= k)
  unfolding ◌>>=◌ expect_some
  Keeps-bind_expect_some (some a) k kk = kk a refl
  Keeps-bind_expect_some none k kk = record { at = λ w h. tt }

-- Reading changes nothing.
module _ {P : World → Type 0} where
  pub Keeps-get : (f : Field Map) (k : HandleId) → Keeps P (get f k)
  unfolding get
  Keeps-get f k = record { at = λ w h. h }

  or_not_found-Keeps : (o : Option Ref) (e : NotFound) → Keeps P (or_not_found o e)
  unfolding or_not_found
  or_not_found-Keeps none e = Keeps-raise _
  or_not_found-Keeps (some r) e = Keeps-pure r

  pub Keeps-get_or_err :
      (f : Field Map) (k : HandleId) (key_name : String) (t : ObjectType)
      → Keeps P (get_or_err f k key_name t)
  unfolding get_or_err
  Keeps-get_or_err f k key_name t = search (Keeps-bind, Keeps-get, or_not_found-Keeps)

  pub Keeps-insert : (f : Field Map) (k : HandleId) (r : Ref) → Free P f → Keeps P (insert f k r)
  unfolding insert
  Keeps-insert f k r free = record { at = λ w h. free _ w h }

  pub Keeps-remove : (f : Field Map) (k : HandleId) → Free P f → Keeps P (remove f k)
  unfolding remove
  Keeps-remove f k free = record { at = λ w h. free _ w h }

read-Holds :
    {A : Type 0} (P : World → Type 0) (o : Option A) (w : World)
    → P w
    → Holds P (elim o as (λ _. Run A) [ none ↦ faulted dangling | some a ↦ done a w ])
read-Holds P none w h = tt
read-Holds P (some a) w h = h

module _ {A : Type 0} {P : World → Type 0} where
  pub Keeps-load : (f : Field (Heap A)) (r : Ref) → Keeps P (load f r)
  unfolding load
  Keeps-load f r = record { at = λ w h. read-Holds P ((f.read w).cell r) w h }

  pub Keeps-store : (f : Field (Heap A)) (r : Ref) (a : A) → Free P f → Keeps P (store f r a)
  unfolding store
  Keeps-store f r a free = record { at = λ w h. free _ w h }

  pub Keeps-alloc : (f : Field (Heap A)) (a : A) → Free P f → Keeps P (alloc f a)
  unfolding alloc
  Keeps-alloc f a free = record { at = λ w h. free _ w h }

-- The methods of an object in a heap that `P` does not read.
module _ {A : Type 0} {P : World → Type 0} (f : Field (Heap A)) (r : Ref) where
  pub Keeps-modify : (g : A → A) → Free P f → Keeps P (modify f r g)
  unfolding modify
  Keeps-modify g free = Keeps-bind _ _ (Keeps-load f r) (λ a. Keeps-store f r (g a) free)

  pub Keeps-call : (g : A → Result A) → Free P f → Keeps P (call f r g)
  unfolding call
  Keeps-call g free =
      Keeps-bind _ _ (Keeps-load f r)
        λ a. Keeps-bind _ _ (Keeps-lift (g a)) (λ a'. Keeps-store f r a' free)

  attempt_with-Keeps : (x : Result A) → Free P f → Keeps P (attempt_with f r x)
  unfolding attempt_with
  attempt_with-Keeps (ok a) free = Keeps-bind _ _ (Keeps-store f r a free) (λ _. Keeps-pure true)
  attempt_with-Keeps (err e) free = Keeps-pure false
  attempt_with-Keeps (fault x) free = Keeps-raise_fault x

  pub Keeps-attempt : (g : A → Result A) → Free P f → Keeps P (attempt f r g)
  unfolding attempt
  Keeps-attempt g free = Keeps-bind _ _ (Keeps-load f r) (λ a. attempt_with-Keeps (g a) free)

module _ {A : Type 0} {P : World → Type 0} (f : Field Map) (h : Field (Heap A)) (k : HandleId) where
  entry_or-Keeps :
      (make : M A) (found : Option Ref)
      → Keeps P make
      → Free P f
      → ((a : A) → Keeps P (alloc h a))
      → Keeps P (entry_or f h k make found)
  unfolding entry_or
  entry_or-Keeps make (some r) km ff ka = Keeps-pure r
  entry_or-Keeps make none km ff ka =
      Keeps-bind _ _ km
        λ a. Keeps-bind _ _ (ka a) λ r. Keeps-bind _ _ (Keeps-insert f k r ff) (λ _. Keeps-pure r)

  pub Keeps-entry : (make : M A) → Keeps P make → Free P f → Free P h → Keeps P (entry f h k make)
  unfolding entry
  Keeps-entry make km ff fh =
      Keeps-bind _ _ (Keeps-get f k)
        λ found. entry_or-Keeps make found km ff (λ a. Keeps-alloc h a fh)

pub ruleset keeps_rules = (
  Keeps-pure, Keeps-raise, Keeps-raise_fault, Keeps-lift, Keeps-expect, Keeps-expect_some,
  Keeps-bind, Keeps-get, Keeps-get_or_err, Keeps-insert, Keeps-remove, Keeps-load, Keeps-store,
  Keeps-alloc, Keeps-modify, Keeps-call, Keeps-attempt, Keeps-entry,
)

-- ===== src/Processor/Exec/Objects.antt =====
-- Invariants of objects: a property `Q` that every object of a heap has. An action keeps it if what
-- it allocates has `Q` and each method that it calls keeps `Q`.
use ros2trace_analyzer.Common.{
  ◌≡◌, refl, Ref, true, false, Option, none, some, Result, ok, err, fault, dangling, ◌==◌, arith,
  Bool-cases, inl, inr,
}
use ros2trace_analyzer.Processor.Id.{HandleId}
use ros2trace_analyzer.Processor.State.{World, Heap, Map, update}
use ros2trace_analyzer.Processor.Exec.{
  Run, done, faulted, M, and_then, ◌>>=◌, pure, Field, alloc, load, store, modify, call,
  attempt_with, attempt, entry_or, entry, lift, expect,
}
use ros2trace_analyzer.Processor.Exec.Keeps.{
  Holds, Keeps, Free, Keeps-pure, Keeps-bind, Keeps-bind_lift, Keeps-bind_expect, Keeps-raise_fault,
  Keeps-get, Keeps-insert,
}

abbrev pub AllCells : {A : Type 0} → (A → Type 0) → (Ref → Option A) → Type 0
AllCells {A} Q cell = (r : Ref) (a : A) → cell r ≡ some a → Q a

AllCells-update :
    {A : Type 0} (Q : A → Type 0) (cell : Ref → Option A) (r : Ref) (a : A)
    → AllCells Q cell
    → Q a
    → AllCells Q (update cell r a)
AllCells-update Q cell r a all q s b e = elim (Bool-cases (r == s)) [
  | inl same ↦ ground (arith, q)
  | inr other ↦ all s b (ground arith)
]

-- `P` says of the heap `f` that its objects have `Q`, and nothing more.
pub record Tracks {A : Type 0} (P : World → Type 0) (f : Field (Heap A)) (Q : A → Type 0)
    : Type 0 where
  pub out : (w : World) → P w → AllCells Q (f.read w).cell
  pub into : (h : Heap A) (w : World) → P w → AllCells Q h.cell → P (f.write h w)

module _ {A : Type 0} {P : World → Type 0} {Q : A → Type 0} (f : Field (Heap A))
    (t : Tracks P f Q) where
  pub alloc-Tracks : (a : A) → Q a → Keeps P (alloc f a)
  unfolding alloc
  alloc-Tracks a q = record {
    at = λ w h. t.into _ w h (AllCells-update Q (f.read w).cell (f.read w).next a (t.out w h) q);
  }

  pub store-Tracks : (r : Ref) (a : A) → Q a → Keeps P (store f r a)
  unfolding store
  store-Tracks r a q = record {
    at = λ w h. t.into _ w h (AllCells-update Q (f.read w).cell r a (t.out w h) q);
  }

  read-Holds :
      {B : Type 0} (o : Option A) (k : A → M B) (w : World)
      → P w
      → ((a : A) → o ≡ some a → Q a)
      → ((a : A) → Q a → Keeps P (k a))
      → Holds P
          (and_then (elim o as (λ _. Run A) [ none ↦ faulted dangling | some a ↦ done a w ]) k)
  read-Holds none k w h q kk = tt
  read-Holds (some a) k w h q kk = (kk a (q a refl)).at w h

  -- What is read has `Q`.
  pub bind_load-Tracks :
      {B : Type 0} (r : Ref) (k : A → M B)
      → ((a : A) → Q a → Keeps P (k a))
      → Keeps P (load f r >>= k)
  unfolding load ◌>>=◌
  bind_load-Tracks r k kk = record {
    at = λ w h. read-Holds ((f.read w).cell r) k w h (λ a e. t.out w h r a e) kk;
  }

  pub modify-Tracks : (r : Ref) (g : A → A) → ((a : A) → Q a → Q (g a)) → Keeps P (modify f r g)
  unfolding modify
  modify-Tracks r g keeps = bind_load-Tracks r _ (λ a q. store-Tracks r (g a) (keeps a q))

  pub call-Tracks :
      (r : Ref) (g : A → Result A) → ((a b : A) → Q a → g a ≡ ok b → Q b) → Keeps P (call f r g)
  unfolding call
  call-Tracks r g keeps =
      bind_load-Tracks r _ λ a q. Keeps-bind_lift (g a) _ (λ b e. store-Tracks r b (keeps a b q e))

  attempt_with-Tracks :
      (r : Ref) (x : Result A) → ((b : A) → x ≡ ok b → Q b) → Keeps P (attempt_with f r x)
  unfolding attempt_with
  attempt_with-Tracks r (ok b) q =
      Keeps-bind _ _ (store-Tracks r b (q b refl)) (λ _. Keeps-pure true)
  attempt_with-Tracks r (err e) q = Keeps-pure false
  attempt_with-Tracks r (fault x) q = Keeps-raise_fault x

  pub attempt-Tracks :
      (r : Ref) (g : A → Result A) → ((a b : A) → Q a → g a ≡ ok b → Q b) → Keeps P (attempt f r g)
  unfolding attempt
  attempt-Tracks r g keeps =
      bind_load-Tracks r _ λ a q. attempt_with-Tracks r (g a) (λ b e. keeps a b q e)

-- An object that has `Q`, or an error.
pub record Makes {A : Type 0} (P : World → Type 0) (Q : A → Type 0) (m : M A) : Type 1 where
  pub bind : {B : Type 0} (k : A → M B) → ((a : A) → Q a → Keeps P (k a)) → Keeps P (m >>= k)

module _ {A : Type 0} {P : World → Type 0} {Q : A → Type 0} where
  pub pure-Makes : (a : A) → Q a → Makes P Q (pure a)
  unfolding pure ◌>>=◌
  pure-Makes a q = record { bind = λ k kk. record { at = λ w h. (kk a q).at w h } }

  pub lift-Makes : (x : Result A) → ((a : A) → x ≡ ok a → Q a) → Makes P Q (lift x)
  lift-Makes x q = record { bind = λ k kk. Keeps-bind_lift x k (λ a e. kk a (q a e)) }

  pub expect-Makes : (x : Result A) → ((a : A) → x ≡ ok a → Q a) → Makes P Q (expect x)
  expect-Makes x q = record { bind = λ k kk. Keeps-bind_expect x k (λ a e. kk a (q a e)) }

module _ {A : Type 0} {P : World → Type 0} {Q : A → Type 0} (f : Field Map) (h : Field (Heap A))
    (t : Tracks P h Q) (k : HandleId) (make : M A) where
  entry_or-Tracks :
      (found : Option Ref) → Makes P Q make → Free P f → Keeps P (entry_or f h k make found)
  unfolding entry_or
  entry_or-Tracks (some r) mk ff = Keeps-pure r
  entry_or-Tracks none mk ff = mk.bind _ λ a q.
      Keeps-bind _ _ (alloc-Tracks h t a q)
        λ r. Keeps-bind _ _ (Keeps-insert f k r ff) (λ _. Keeps-pure r)

  pub entry-Tracks : Makes P Q make → Free P f → Keeps P (entry f h k make)
  unfolding entry
  entry-Tracks mk ff = Keeps-bind _ _ (Keeps-get f k) (λ found. entry_or-Tracks found mk ff)

pub ruleset object_rules = (
  alloc-Tracks, store-Tracks, bind_load-Tracks, modify-Tracks, call-Tracks, attempt-Tracks,
  entry-Tracks, pure-Makes, lift-Makes, expect-Makes, Keeps-bind_lift, Keeps-bind_expect,
)

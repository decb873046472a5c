-- ===== src/Display/Shows.antt =====
-- When a display function shows its text: it takes no lock that is held, and nothing in it panics. What it refers to
-- may still be missing in the model's heaps, which Rust excludes.
use ros2trace_analyzer.Common.{
  ◌==◌, Ref, Bool, true, false, ◌||◌, String, [], ◌∷◌, Option, none, some, Result, ok, fault,
  dangling, ◌≡◌, arith,
}
use ros2trace_analyzer.Utils.Known.{Known, known, unknown}
use ros2trace_analyzer.Utils.ArcWeak.{ArcWeak, get_arc}
use ros2trace_analyzer.Processor.State.{Heap}
use ros2trace_analyzer.Analysis.Base.{◌>>=◌}
use ros2trace_analyzer.Display.{
  LockType, index, Held, holds, Printer, between, with_lock, known_text, arc_mutex_text,
  upgraded_text, arc_weak_mutex_text,
}

pub data Shows {A : Type 0} : Result A → Type 0 where
  shows : {a : A} → Shows (ok a)
  dangles : Shows (fault dangling)

-- No lock of this type is held.
abbrev pub holds_type : Held → LockType → Bool
holds_type [] t = false
holds_type ((t', r') ∷ held) t = (index t' == index t) || holds_type held t

abbrev pub IsFree : LockType → Held → Type 0
IsFree t held = holds_type held t ≡ false

holds-of_type : (t : LockType) (r : Ref) (held : Held) → IsFree t held → holds held t r ≡ false
holds-of_type t r [] free = free
holds-of_type t r ((t', r') ∷ held) free = ground (arith, holds-of_type t r held)

pub bind-Shows :
    {A B : Type 0} {r : Result A} {f : A → Result B}
    → Shows r
    → ((a : A) → Shows (f a))
    → Shows (r >>= f)
bind-Shows shows k = k _
bind-Shows dangles k = dangles

pub between-Shows :
    (before behind : String) {r : Result String} → Shows r → Shows (between before behind r)
unfolding between
between-Shows before behind shows = shows
between-Shows before behind dangles = dangles

module _ {A B : Type 0} (t : LockType) (h : Heap A) (show : A → Held → Result B) where
  cell-Shows :
      (cell : Option A) (held : Held)
      → ((a : A) → Shows (show a held))
      → Shows (elim cell [ none ↦ fault dangling | some a ↦ show a held ])
  cell-Shows none held k = dangles
  cell-Shows (some a) held k = k a

  -- A lock of a type of which none is held.
  pub with_lock-Shows :
      (r : Ref) (held : Held)
      → IsFree t held
      → ((a : A) → Shows (show a ((t, r) ∷ held)))
      → Shows (with_lock t h r show held)
  unfolding with_lock
  with_lock-Shows r held free k =
      rw (holds-of_type t r held free) (cell-Shows (h.cell r) ((t, r) ∷ held) k)

module _ {A : Type 0} (show : A → Printer) where
  pub known_text-Shows :
      (k : Known A) (held : Held) → ((a : A) → Shows (show a held)) → Shows (known_text show k held)
  unfolding known_text
  known_text-Shows (known a) held s = s a
  known_text-Shows unknown held s = shows

  module _ (t : LockType) (h : Heap A) (held : Held) (free : IsFree t held) where
    -- What is asked of the text of an object: that it shows while the object is locked.
    abbrev pub ShowsLocked : Type 0
    ShowsLocked = (r : Ref) (a : A) → Shows (show a ((t, r) ∷ held))

    pub arc_mutex_text-Shows :
        (skip : Bool) (r : Ref) → ShowsLocked → Shows (arc_mutex_text t h show skip r held)
    unfolding arc_mutex_text
    arc_mutex_text-Shows true r s = shows
    arc_mutex_text-Shows false r s = with_lock-Shows t h show r held free (s r)

    pub upgraded_text-Shows :
        (upgraded : Option Ref) → ShowsLocked → Shows (upgraded_text t h show upgraded held)
    unfolding upgraded_text
    upgraded_text-Shows none s = shows
    upgraded_text-Shows (some r) s = with_lock-Shows t h show r held free (s r)

    pub arc_weak_mutex_text-Shows :
        (alive : Ref → Bool) (skip : Bool) (reference : ArcWeak)
        → ShowsLocked
        → Shows (arc_weak_mutex_text alive t h show skip reference held)
    unfolding arc_weak_mutex_text
    arc_weak_mutex_text-Shows alive true reference s = shows
    arc_weak_mutex_text-Shows alive false reference s =
        upgraded_text-Shows (get_arc alive reference) s

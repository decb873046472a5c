-- ===== src/Analysis/Returns.antt =====
-- What holds of the value of a step of an analysis, where it returns one.
use mathlib.Core.Path.{subst}
use ros2trace_analyzer.Common.{
  ◌-ℤ◌, is_i64, Ref, Bool, true, false, Option, none, some, Result, ok, err, fault, panic, dangling,
  ◌≡◌, refl, if◌then◌else◌,
}
use ros2trace_analyzer.Model.PublicationMessage.{Time}
use ros2trace_analyzer.Processor.State.{Heap}
use ros2trace_analyzer.Common.{Error, Fault}
use ros2trace_analyzer.Analysis.Base.{◌>>=◌, expect, lock, sub_times}

pub data Returns {A : Type 0} (P : A → Type 0) : Result A → Type 0 where
  returns : {a : A} → P a → Returns P (ok a)
  fails : {e : Error} → Returns P (err e)
  faults : {x : Fault} → Returns P (fault x)

module _ {A : Type 0} {P : A → Type 0} where
  ok_value : {a : A} → Returns P (ok a) → P a
  ok_value (returns p) = p

  pub of_Returns : {r : Result A} {a : A} → Returns P r → r ≡ ok a → P a
  of_Returns p e = ok_value (subst (Returns P) e p)

  pub weaken-Returns :
      {Q : A → Type 0} {r : Result A} → Returns P r → ((a : A) → P a → Q a) → Returns Q r
  weaken-Returns (returns p) k = returns (k _ p)
  weaken-Returns fails k = fails
  weaken-Returns faults k = faults

module _ {A B : Type 0} {Q : B → Type 0} where
  pub >>=-Returns :
      {P : A → Type 0} {r : Result A} {f : A → Result B}
      → Returns P r
      → ((a : A) → P a → Returns Q (f a))
      → Returns Q (r >>= f)
  >>=-Returns (returns p) k = k _ p
  >>=-Returns fails k = fails
  >>=-Returns faults k = faults

  -- Nothing is asked of the value of the first step.
  pub then-Returns :
      (r : Result A) {f : A → Result B} → ((a : A) → Returns Q (f a)) → Returns Q (r >>= f)
  then-Returns (ok a) k = k a
  then-Returns (err e) k = fails
  then-Returns (fault x) k = faults

  -- The value of the first step is the one that it returned.
  pub bind-Returns :
      (r : Result A) {f : A → Result B}
      → ((a : A) → r ≡ ok a → Returns Q (f a))
      → Returns Q (r >>= f)
  bind-Returns (ok a) k = k a refl
  bind-Returns (err e) k = fails
  bind-Returns (fault x) k = faults

-- What was unwrapped, locked or subtracted.
pub expect-Returns : {A : Type 0} (o : Option A) → Returns (λ a. o ≡ some a) (expect o)
expect-Returns none = faults
expect-Returns (some a) = returns refl

pub lock-Returns : {A : Type 0} (h : Heap A) (r : Ref) → Returns (λ a. h.cell r ≡ some a) (lock h r)
lock-Returns h r = go (h.cell r)
  where
    go :
        {A : Type 0} (o : Option A)
        → Returns (λ a. o ≡ some a) (elim o [ none ↦ fault dangling | some a ↦ ok a ])
    go none = faults
    go (some a) = returns refl

pub sub_times-Returns : (a b : Time) → Returns (λ d. d ≡ a -ℤ b) (sub_times a b)
sub_times-Returns a b = go (is_i64 (a -ℤ b))
  where
    go : (fits : Bool) → Returns (λ d. d ≡ a -ℤ b) (if fits then ok (a -ℤ b) else fault panic)
    go true = returns refl
    go false = faults

-- ===== src/Utils/WeakKnown.antt =====
-- `WeakKnown<T>` of src/utils.rs: a value behind a reference whose target may be gone.
use ros2trace_analyzer.Common.{String, Bool, true, false, Result, ok, fault, panic}
use ros2trace_analyzer.Utils.Known.{Known}

pub data WeakKnown {ℓ} (A : Type ℓ) : Type ℓ where
  known : A → WeakKnown A
  unknown : WeakKnown A
  dropped : WeakKnown A

module _ {ℓ} {A : Type ℓ} where
  unfoldable pub is_known : WeakKnown A → Bool
  is_known (known _) = true
  is_known unknown = false
  is_known dropped = false

  unfoldable pub is_unknown : WeakKnown A → Bool
  is_unknown (known _) = false
  is_unknown unknown = true
  is_unknown dropped = false

  unfoldable pub is_droped : WeakKnown A → Bool
  is_droped (known _) = false
  is_droped unknown = false
  is_droped dropped = true

  unfoldable pub unwrap : WeakKnown A → Result A
  unwrap (known value) = ok value
  unwrap unknown = fault panic
  unwrap dropped = fault panic

  unfoldable pub unwrap_or : WeakKnown A → A → A
  unwrap_or (known value) default = value
  unwrap_or unknown default = default
  unwrap_or dropped default = default

  unfoldable pub eq_inner : (A → A → Bool) → WeakKnown A → A → Bool
  eq_inner eq (known a) other = eq a other
  eq_inner eq unknown other = false
  eq_inner eq dropped other = false

  unfoldable pub of_known : Known A → WeakKnown A
  of_known (Known.known value) = known value
  of_known Known.unknown = unknown

  -- `Display`; `show` is that of the value.
  unfoldable pub weak_known_text : (A → String) → WeakKnown A → String
  weak_known_text show (known value) = show value
  weak_known_text show unknown = "Unknown"
  weak_known_text show dropped = "Dropped"

unfoldable pub map {ℓ κ} : {A : Type ℓ} {B : Type κ} → (A → B) → WeakKnown A → WeakKnown B
map f (known x) = known (f x)
map f unknown = unknown
map f dropped = dropped

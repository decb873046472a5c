-- ===== src/Utils/Known.antt =====
-- `Known<T>` of src/utils.rs: a value that the trace may not have shown yet.
use ros2trace_analyzer.Common.{Bool, true, false, Option, none, some, not}

pub data Known {ℓ} (A : Type ℓ) : Type ℓ where
  known : A → Known A
  unknown : Known A

module _ {ℓ} {A : Type ℓ} where
  unfoldable pub is_known : Known A → Bool
  is_known (known _) = true
  is_known unknown = false

  unfoldable pub is_unknown : Known A → Bool
  unfolding is_known
  is_unknown k = not (is_known k)

  unfoldable pub is_unknown_or_eq : (A → A → Bool) → Known A → A → Bool
  is_unknown_or_eq eq (known value) other = eq value other
  is_unknown_or_eq eq unknown other = true

  unfoldable pub unwrap_or : Known A → A → A
  unwrap_or (known value) default = value
  unwrap_or unknown default = default

  unfoldable pub into_option : Known A → Option A
  into_option (known value) = some value
  into_option unknown = none

  unfoldable pub of_option : Option A → Known A
  of_option (some value) = known value
  of_option none = unknown

  unfoldable pub eq_inner : (A → A → Bool) → Known A → A → Bool
  eq_inner eq (known a) other = eq a other
  eq_inner eq unknown other = false

  -- The derived `PartialEq`.
  unfoldable pub known_eq : (A → A → Bool) → Known A → Known A → Bool
  known_eq eq (known a) (known b) = eq a b
  known_eq eq unknown unknown = true
  known_eq eq (known _) unknown = false
  known_eq eq unknown (known _) = false

module _ {ℓ κ} {A : Type ℓ} {B : Type κ} where
  unfoldable pub map : (A → B) → Known A → Known B
  map f (known x) = known (f x)
  map f unknown = unknown

  unfoldable pub map_or : Known A → B → (A → B) → B
  map_or (known x) default f = f x
  map_or unknown default f = default

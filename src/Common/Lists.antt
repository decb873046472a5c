-- ===== src/Common/Lists.antt =====
-- Lists measured and cut by native numbers, under the library's names.
use Prim.Native.Nat.{ℕ, zero, suc, ◌+◌, ◌-◌, ◌≤◌}
use mathlib.Core.Path.{◌≡◌, refl}
use mathlib.Core.Bool.{Bool, true, false, ◌&&◌}
use mathlib.Core.Option.{Option, none, some}
use mathlib.Core.List.{List, [], ◌∷◌, ◌++◌}
use native.Mathlib.Omega.{arith}
use ros2trace_analyzer.Common.Tests.{◌==◌}

module _ {ℓ} {A : Type ℓ} where
  abbrev pub length : List A → ℕ
  length [] = 0
  length (x ∷ xs) = suc (length xs)

  abbrev pub take : ℕ → List A → List A
  take zero xs = []
  take (suc n) [] = []
  take (suc n) (x ∷ xs) = x ∷ take n xs

  abbrev pub drop : ℕ → List A → List A
  drop zero xs = xs
  drop (suc n) [] = []
  drop (suc n) (x ∷ xs) = drop n xs

  abbrev pub get_elem? : List A → ℕ → Option A
  get_elem? [] n = none
  get_elem? (x ∷ xs) zero = some x
  get_elem? (x ∷ xs) (suc n) = get_elem? xs n

  pub get_elem?-append :
      (xs ys : List A) (n : ℕ) {a : A} → get_elem? xs n ≡ some a → get_elem? (xs ++ ys) n ≡ some a
  get_elem?-append [] ys n h = cc
  get_elem?-append (x ∷ xs) ys zero h = h
  get_elem?-append (x ∷ xs) ys (suc n) h = get_elem?-append xs ys n h

  pub get_elem?-length : (xs : List A) (a : A) → get_elem? (xs ++ a ∷ []) (length xs) ≡ some a
  get_elem?-length [] a = refl
  get_elem?-length (x ∷ xs) a = get_elem?-length xs a

  pub length-append : (xs ys : List A) → length (xs ++ ys) ≡ length xs + length ys
  length-append [] ys = omega arith
  length-append (x ∷ xs) ys = omega (arith, length-append xs ys)

  pub take-append-drop : (n : ℕ) (xs : List A) → take n xs ++ drop n xs ≡ xs
  take-append-drop zero xs = refl
  take-append-drop (suc n) [] = refl
  take-append-drop (suc n) (x ∷ xs) = rw (take-append-drop n xs)

  pub length-drop : (n : ℕ) (xs : List A) → length (drop n xs) ≡ length xs - n
  length-drop zero xs = omega arith
  length-drop (suc n) [] = omega arith
  length-drop (suc n) (x ∷ xs) = omega (arith, length-drop n xs)

  -- A list is cut behind its first part.
  pub drop-append : (n : ℕ) (xs ys : List A) → n ≤ length xs → drop n (xs ++ ys) ≡ drop n xs ++ ys
  drop-append zero xs ys h = refl
  drop-append (suc n) [] ys h = absurd (omega arith)
  drop-append (suc n) (x ∷ xs) ys h = drop-append n xs ys (omega arith)

-- Equality of byte strings.
abbrev pub bytes_eq : List ℕ → List ℕ → Bool
bytes_eq [] [] = true
bytes_eq [] (y ∷ ys) = false
bytes_eq (x ∷ xs) [] = false
bytes_eq (x ∷ xs) (y ∷ ys) = x == y && bytes_eq xs ys

pub eq_of_bytes_eq : (xs ys : List ℕ) → bytes_eq xs ys ≡ true → xs ≡ ys
eq_of_bytes_eq [] [] h = refl
eq_of_bytes_eq [] (y ∷ ys) h = cc
eq_of_bytes_eq (x ∷ xs) [] h = cc
eq_of_bytes_eq (x ∷ xs) (y ∷ ys) h = ground (arith, eq_of_bytes_eq xs ys)

pub bytes_eq_refl : (xs : List ℕ) → bytes_eq xs xs ≡ true
bytes_eq_refl [] = refl
bytes_eq_refl (x ∷ xs) = ground (arith, bytes_eq_refl xs)

-- ===== src/Utils/Format/Digits.antt =====
-- The digits of a number give the number back.
use ros2trace_analyzer.Common.{
  ℕ, zero, suc, ◌+◌, ◌*◌, ◌/◌, ◌%◌, ◌≤◌, ◌<◌, ltb, Bool-cases, List, [], ◌∷◌, inl, inr, ◌≡◌, ap,
  ◌∙◌, false, arith,
}
use ros2trace_analyzer.Utils.Format.{digits}

-- The number that digits stand for, behind what was read of it.
value : ℕ → ℕ → List ℕ → ℕ
value base n [] = n
value base n (d ∷ ds) = value base (n * base + d) ds

less : (fuel n base : ℕ) → 1 < base → ltb n base ≡ false → n ≤ suc fuel → n / base ≤ fuel
less fuel n base b big h = grind arith

again : (n base : ℕ) → 1 < base → (n / base) * base + n % base ≡ n
again n base b = grind arith

-- The digits that are written stand for the number.
value-digits :
    (base fuel n : ℕ) (acc : List ℕ)
    → 1 < base
    → n ≤ fuel
    → value base 0 (digits base fuel n acc) ≡ value base n acc
unfolding digits value
value-digits base zero n acc b h = ground arith
value-digits base (suc fuel) n acc b h = elim (Bool-cases (ltb n base)) [
  | inl small ↦ rw small (ground arith)
  | inr big ↦ rw big (
      value-digits base fuel (n / base) (n % base ∷ acc) b (less fuel n base b big h)
      ∙ ap (λ m. value base m acc) (again n base b))
]

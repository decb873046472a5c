-- ===== src/Utils/Duration/Exact.antt =====
-- A duration that `DisplayDuration` of src/utils.rs shows is the duration itself.
use native.Mathlib.Nat.{zero-add, zero-mul, div-add-mod', mul_assoc, mul_comm}
use ros2trace_analyzer.Common.{
  ℕ, zero, suc, ◌+◌, ◌*◌, ◌/◌, ◌%◌, ℤ, pos, negsuc, pos_part, neg_part, negated, div_ℤ, true, ◌==◌,
  ==_iff, List, [], ◌∷◌, ◌≡◌, ap, ◌∙◌, sym, inl, inr, Bool-cases, arith,
}
use ros2trace_analyzer.Utils.Duration.{factors, divides, scale, display_duration}

-- The size of a unit in units of the first.
abbrev pub product : ℕ → List ℕ → ℕ
product zero fs = 1
product (suc n) [] = 1
product (suc n) (f ∷ fs) = f * product n fs

-- The second value is `n` times the first.
abbrev pub IsTimes : ℤ → ℕ → ℤ → Type 0
IsTimes v n d = (pos_part v * n ≡ pos_part d) × (neg_part v * n ≡ neg_part d)

exact : (a f : ℕ) → (a % f == 0) ≡ true → a / f * f ≡ a
exact a f h = omega (arith, div-add-mod' a f, (==_iff (a % f) 0).0 h)

div_ℤ-IsTimes : (f : ℕ) (v : ℤ) → divides f v ≡ true → IsTimes (div_ℤ v f) f v
unfolding div_ℤ
div_ℤ-IsTimes f (pos a) h = (exact a f h, omega arith)
div_ℤ-IsTimes f (negsuc a) h = (
  ap (λ x. x * f) (negated (suc a / f)).0 ∙ zero-mul f,
  ap (λ x. x * f) (negated (suc a / f)).1 ∙ exact (suc a) f h,
)

times_trans : (a b c f n : ℕ) → a * n ≡ b → b * f ≡ c → a * (f * n) ≡ c
times_trans a b c f n e e' =
    ap (λ x. a * x) (mul_comm f n) ∙ sym (mul_assoc a n f) ∙ ap (λ x. x * f) e ∙ e'

-- Two divisions, one after the other.
IsTimes-trans : (r v d : ℤ) (f n : ℕ) → IsTimes r n v → IsTimes v f d → IsTimes r (f * n) d
IsTimes-trans r v d f n (p, q) (p', q') = (times_trans _ _ _ f n p p', times_trans _ _ _ f n q q')

one_time : (v : ℤ) → IsTimes v 1 v
one_time v = (omega arith, omega arith)

scale-IsTimes :
    (fs : List ℕ) (v : ℤ) (s : ℕ)
    → (k : ℕ) × ((scale fs v s).1 ≡ s + k) × IsTimes (scale fs v s).0 (product k fs) v
unfolding scale
scale-IsTimes [] v s = (0, omega arith, one_time v)
scale-IsTimes (f ∷ fs) v s = elim (Bool-cases (divides f v)) [
  | inl h ↦
      let (k, e, p) = scale-IsTimes fs (div_ℤ v f) (s + 1) in
      (
        suc k,
        rw h (omega (arith, e)),
        rw h (IsTimes-trans _ _ v f (product k fs) p (div_ℤ-IsTimes f v h)),
      )
  | inr h ↦ (0, rw h (omega arith), rw h (one_time v))
]

-- The value that is shown, times the size of its unit, is the duration.
pub display_duration-IsTimes :
    (d : ℤ) → IsTimes (display_duration d).0 (product (display_duration d).1 factors) d
unfolding display_duration
display_duration-IsTimes d = let (k, e, p) = scale-IsTimes factors d 0 in rw (e, zero-add k) p

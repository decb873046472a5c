-- ===== src/Analysis/DependencyGraph/Ranges/Bounds.antt =====
-- The ranges of src/analysis/dependency_graph.rs are those of the latencies that were put in.
use mathlib.Core.List.{Memᴰ}
use mathlib.Core.List.Memᴰ
use ros2trace_analyzer.Common.{
  ℤ, i64_max, i64_min, int_eq_iff, leb_ℤ, ◌≤ℤ◌, List, [], ◌∷◌, some, ◌≡◌, refl, ◌⊎◌, inl, inr,
  Bool-cases, arith,
}
use ros2trace_analyzer.Analysis.DependencyGraph.Ranges.{
  Range, no_range, update_range, validate_range,
}

-- All latencies of a kind, one after the other.
abbrev pub update_all : List ℤ → Range → Range
update_all [] r = r
update_all (x ∷ xs) r = update_all xs (update_range x r)

-- The range holds the value.
abbrev pub Holds : Range → ℤ → Type 0
Holds r x = (r.0 ≤ℤ x) × (x ≤ℤ r.1)

update_range-Holds : (x : ℤ) (r : Range) → Holds (update_range x r) x
unfolding update_range
update_range-Holds x r = (ground arith, ground arith)

update_range-wider : (x y : ℤ) (r : Range) → Holds r y → Holds (update_range x r) y
unfolding update_range
update_range-wider x y r (low, high) = (ground arith, ground arith)

update_all-wider : (xs : List ℤ) (y : ℤ) (r : Range) → Holds r y → Holds (update_all xs r) y
update_all-wider [] y r h = h
update_all-wider (x ∷ xs) y r h =
    update_all-wider xs y (update_range x r) (update_range-wider x y r h)

update_all-Holds : (xs : List ℤ) (y : ℤ) (r : Range) → Memᴰ y xs → Holds (update_all xs r) y
update_all-Holds [] y r m = absurd (Memᴰ.not-nil m)
update_all-Holds (x ∷ xs) y r m = elim (Memᴰ.cases_cons m) [
  | inl e ↦ rw e (update_all-wider xs x (update_range x r) (update_range-Holds x r))
  | inr later ↦ update_all-Holds xs y (update_range x r) later
]

-- Each end of the range is that of before, or one of the values.
EndsIn : List ℤ → Range → Range → Type 0
EndsIn xs r r' = ((r'.0 ≡ r.0) ⊎ Memᴰ r'.0 xs) × ((r'.1 ≡ r.1) ⊎ Memᴰ r'.1 xs)

low_end : (x : ℤ) (r : Range) → ((update_range x r).0 ≡ r.0) ⊎ ((update_range x r).0 ≡ x)
unfolding update_range
low_end x r = elim (Bool-cases (leb_ℤ r.0 x)) [ inl h ↦ inl (rw h) | inr h ↦ inr (rw h) ]

high_end : (x : ℤ) (r : Range) → ((update_range x r).1 ≡ r.1) ⊎ ((update_range x r).1 ≡ x)
unfolding update_range
high_end x r = elim (Bool-cases (leb_ℤ r.1 x)) [ inl h ↦ inr (rw h) | inr h ↦ inl (rw h) ]

later_end :
    {a b x : ℤ} {xs : List ℤ}
    → (a ≡ b) ⊎ Memᴰ a xs
    → {c : ℤ} → (b ≡ c) ⊎ (b ≡ x)
    → (a ≡ c) ⊎ Memᴰ a (x ∷ xs)
later_end (inr m) e = inr (Memᴰ.tail m)
later_end (inl p) (inl q) = inl (cc (p, q))
later_end (inl p) (inr q) = inr (Memᴰ.head (cc (p, q)))

update_all-low :
    (xs : List ℤ) (r : Range) → ((update_all xs r).0 ≡ r.0) ⊎ Memᴰ (update_all xs r).0 xs
update_all-low [] r = inl refl
update_all-low (x ∷ xs) r = later_end (update_all-low xs (update_range x r)) (low_end x r)

update_all-high :
    (xs : List ℤ) (r : Range) → ((update_all xs r).1 ≡ r.1) ⊎ Memᴰ (update_all xs r).1 xs
update_all-high [] r = inl refl
update_all-high (x ∷ xs) r = later_end (update_all-high xs (update_range x r)) (high_end x r)

validate_range-Holds : (r : Range) (x : ℤ) → Holds r x → validate_range r ≡ some r
unfolding validate_range
validate_range-Holds r x (low, high) =
    ground (arith, int_eq_iff r.0 i64_max, int_eq_iff r.1 i64_min)

-- Where there is at least one latency, the range of all of them is valid, holds each of them, and its ends are latencies, or the
-- ends of the 64-bit integers.
pub validate_range-update_all :
    (x : ℤ) (xs : List ℤ)
    → (validate_range (update_all (x ∷ xs) no_range) ≡ some (update_all (x ∷ xs) no_range))
      × ((y : ℤ) → Memᴰ y (x ∷ xs) → Holds (update_all (x ∷ xs) no_range) y)
      × (((update_all (x ∷ xs) no_range).0 ≡ i64_max)
          ⊎ Memᴰ (update_all (x ∷ xs) no_range).0 (x ∷ xs))
      × (((update_all (x ∷ xs) no_range).1 ≡ i64_min)
          ⊎ Memᴰ (update_all (x ∷ xs) no_range).1 (x ∷ xs))
validate_range-update_all x xs = (
  validate_range-Holds _ x (update_all-Holds (x ∷ xs) x no_range (Memᴰ.head refl)),
  (λ y m. update_all-Holds (x ∷ xs) y no_range m),
  update_all-low (x ∷ xs) no_range,
  update_all-high (x ∷ xs) no_range,
)

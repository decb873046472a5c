-- ===== src/Statistics/Quantiles.antt =====
-- The quantiles of src/statistics.rs: the nearest-rank method.
use ros2trace_analyzer.Common.{
  ℕ, zero, suc, ◌-◌, ◌≤◌, ◌<◌, ◌^◌, Bool, true, not, List, [], ◌∷◌, length, get_elem?, some, ◌≡◌,
  refl, ap, inl, inr, Bool-cases, if◌then◌else◌, arith,
}
use ros2trace_analyzer.Statistics.Float.{Floats, IsIeee}
use ros2trace_analyzer.Statistics.{
  Order, Sorted, Quantile, at_rank, rank, quantile, sorted_from, is_sorted,
}

module _ {A : Type 0} where
  -- How many values of the list pass the test.
  unfoldable pub count : (A → Bool) → List A → ℕ
  count p [] = 0
  count p (x ∷ xs) = if p x then suc (count p xs) else count p xs

  get_elem?-some : (xs : List A) (i : ℕ) → i < length xs → (v : A) × (get_elem? xs i ≡ some v)
  get_elem?-some [] i h = absurd (omega arith)
  get_elem?-some (x ∷ xs) zero h = (x, refl)
  get_elem?-some (x ∷ xs) (suc i) h = get_elem?-some xs i (omega arith)

module _ {A : Type 0} ⦃order : Order A⦄ where
  leb_refl : (x : A) → order.leb x x ≡ true
  leb_refl x = elim (Bool-cases (order.leb x x)) [ inl h ↦ h | inr h ↦ order.leb_total x x h ]

  is_sorted-tail : (x : A) (ys : List A) → sorted_from x ys ≡ true → is_sorted ys ≡ true
  unfolding is_sorted sorted_from
  is_sorted-tail x [] s = refl
  is_sorted-tail x (y ∷ ys) s = ground arith

  sorted_from-leb :
      (x : A) (ys : List A) (i : ℕ) {v : A}
      → sorted_from x ys ≡ true
      → get_elem? ys i ≡ some v
      → order.leb x v ≡ true
  unfolding sorted_from
  sorted_from-leb x [] i s e = absurd (cc e)
  sorted_from-leb x (y ∷ ys) zero {v} s e = ground arith
  sorted_from-leb x (y ∷ ys) (suc i) {v} s e =
      order.leb_trans x y v (ground arith) (sorted_from-leb y ys i (ground arith) e)

  get_elem?_mono :
      (xs : List A) (i j : ℕ) {u v : A}
      → is_sorted xs ≡ true
      → i ≤ j
      → get_elem? xs i ≡ some u
      → get_elem? xs j ≡ some v
      → order.leb u v ≡ true
  unfolding is_sorted
  get_elem?_mono [] i j s le e e' = absurd (cc e)
  get_elem?_mono (x ∷ xs) zero zero {u} {v} s le e e' = ground (arith, leb_refl x)
  get_elem?_mono (x ∷ xs) zero (suc j) {u} {v} s le e e' =
      ground (arith, sorted_from-leb x xs j {v = v} s e')
  get_elem?_mono (x ∷ xs) (suc i) zero s le e e' = absurd (omega arith)
  get_elem?_mono (x ∷ xs) (suc i) (suc j) s le e e' =
      get_elem?_mono xs i j (is_sorted-tail x xs s) (omega arith) e e'

  -- The values below `v`, and those up to it.
  abbrev pub below : A → A → Bool
  below v x = not (order.leb v x)

  abbrev pub up_to : A → A → Bool
  up_to v x = order.leb x v

  count-below :
      (z x : A) (ys : List A)
      → order.leb z x ≡ true
      → sorted_from x ys ≡ true
      → count (below z) ys ≡ 0
  unfolding sorted_from count
  count-below z x [] h s = refl
  count-below z x (y ∷ ys) h s = ground (
    arith,
    order.leb_trans z x y h (ground arith),
    count-below z y ys (order.leb_trans z x y h (ground arith)) (ground arith),
  )

  get_elem?-rank :
      (xs : List A) (i : ℕ) {v : A}
      → is_sorted xs ≡ true
      → get_elem? xs i ≡ some v
      → (suc i ≤ count (up_to v) xs) × (count (below v) xs ≤ i)
  unfolding is_sorted count
  get_elem?-rank [] i s e = absurd (cc e)
  get_elem?-rank (x ∷ xs) zero {v} s e =
      ground (arith, leb_refl x, count-below x x xs (leb_refl x) s)
  get_elem?-rank (x ∷ xs) (suc i) {v} s e = ground (
    arith,
    sorted_from-leb x xs i {v = v} s e,
    get_elem?-rank xs i {v = v} (is_sorted-tail x xs s) e,
  )

-- A value between 0 and 1.
abbrev pub IsQuantile : {F : Type 0} → Floats F → Quantile F → Type 0
IsQuantile floats q =
    (floats.leb floats.zero q.value ≡ true) × (floats.leb q.value floats.one ≡ true)

module _ {F : Type 0} (floats : Floats F) (ieee : IsIeee floats) where
  rank_le :
      (q : Quantile F) (n : ℕ)
      → floats.leb q.value floats.one ≡ true
      → n ≤ 2 ^ 53
      → rank floats q n ≤ n
  rank_le q n le small =
      let at_one =
        ieee.ceil_mono (floats.mul q.value (floats.of_ℕ n)) (floats.mul floats.one (floats.of_ℕ n))
          (ieee.mul_mono q.value floats.one (floats.of_ℕ n) le (ieee.of_ℕ-nonnegative n)) in
      rw (ieee.one-mul (floats.of_ℕ n), ieee.ceil-of_ℕ n small) at at_one

  rank_mono :
      (q r : Quantile F) (n : ℕ)
      → floats.leb q.value r.value ≡ true
      → rank floats q n ≤ rank floats r n
  rank_mono q r n le =
      ieee.ceil_mono (floats.mul q.value (floats.of_ℕ n)) (floats.mul r.value (floats.of_ℕ n))
        (ieee.mul_mono q.value r.value (floats.of_ℕ n) le (ieee.of_ℕ-nonnegative n))

at_rank-get_elem? : {A : Type 0} (r : ℕ) (xs : List A) → at_rank r xs ≡ get_elem? xs (r - 1)
at_rank-get_elem? zero xs = refl
at_rank-get_elem? (suc i) xs = ap (get_elem? xs) (omega arith)

module _ {F : Type 0} (floats : Floats F) (ieee : IsIeee floats) {A : Type 0}
    ⦃order : Order A⦄ where
  quantile-get_elem? :
      (q : Quantile F) (xs : List A)
      → 1 ≤ length xs
      → quantile floats q (record { values = xs }) ≡ get_elem? xs (rank floats q (length xs) - 1)
  unfolding quantile
  quantile-get_elem? q [] nonempty = absurd (omega arith)
  quantile-get_elem? q (x ∷ xs) nonempty =
      at_rank-get_elem? (rank floats q (length (x ∷ xs))) (x ∷ xs)

  -- A quantile between 0 and 1 of sorted values, of which there is at least one and at most 2 ^ 53, is the value of
  -- the nearest rank: as many values as the rank says are not above it, and fewer are below it.
  pub quantile-nearest_rank :
      (q : Quantile F) (s : Sorted A)
      → IsQuantile floats q
      → is_sorted s.values ≡ true
      → 1 ≤ length s.values
      → length s.values ≤ 2 ^ 53
      → (v : A) × (quantile floats q s ≡ some v)
        × (rank floats q (length s.values) ≤ count (up_to v) s.values)
        × (count (below v) s.values ≤ rank floats q (length s.values) - 1)
  quantile-nearest_rank q s h sorted nonempty small =
      let r = rank floats q (length s.values) in
      let le = rank_le floats ieee q (length s.values) h.1 small in
      let (v, e) = get_elem?-some s.values (r - 1) (omega arith) in
      let (up, low) = get_elem?-rank s.values (r - 1) sorted e in
      (v, rw (quantile-get_elem? q s.values nonempty) e, omega arith, low)

  -- A greater quantile of the same sorted values, of which there is at least one, is not less.
  pub quantile_mono :
      (q r : Quantile F) (s : Sorted A) (u v : A)
      → floats.leb q.value r.value ≡ true
      → is_sorted s.values ≡ true
      → 1 ≤ length s.values
      → quantile floats q s ≡ some u
      → quantile floats r s ≡ some v
      → order.leb u v ≡ true
  quantile_mono q r s u v le sorted nonempty e e' =
      get_elem?_mono s.values (rank floats q (length s.values) - 1)
        (rank floats r (length s.values) - 1) sorted
        (omega (arith, rank_mono floats ieee q r (length s.values) le))
        (rw (quantile-get_elem? q s.values nonempty) at e)
        (rw (quantile-get_elem? r s.values nonempty) at e')

-- ===== src/Statistics.antt =====
-- src/statistics.rs: sorted lists and their quantiles, and the mean.
pub mod Float
pub mod Sort
pub mod Quantiles
pub mod Means
pub mod Tests
use ros2trace_analyzer.Common.{
  ℕ, zero, suc, ℤ, pos, negsuc, ◌+ℤ◌, div_ℤ, is_i64, leb_ℤ, leb_ℤ_total, leb_ℤ_trans, Bool, true,
  false, ◌&&◌, List, [], ◌∷◌, length, get_elem?, Option, none, some, ◌⊎◌, inl, inr, Result, ok,
  fault, panic, ◌≡◌, arith, if◌then◌else◌,
}
use ros2trace_analyzer.Statistics.Float.{Floats}

-- `Ord`, as far as it is used.
pub record Order (A : Type 0) : Type 0 where
  pub leb : A → A → Bool
  pub leb_total : (a b : A) → leb a b ≡ false → leb b a ≡ true
  pub leb_trans : (a b c : A) → leb a b ≡ true → leb b c ≡ true → leb a c ≡ true

instance abbrev pub i64_order : Order ℤ
i64_order = record { leb = leb_ℤ; leb_total = leb_ℤ_total; leb_trans = leb_ℤ_trans }

pub record Sorted (A : Type 0) : Type 0 where
  pub values : List A

module _ {A : Type 0} ⦃order : Order A⦄ where
  -- `sort` of a slice: equal values stay in their order.
  unfoldable pub insert_sorted : A → List A → List A
  insert_sorted x [] = x ∷ []
  insert_sorted x (y ∷ ys) = if order.leb x y then x ∷ y ∷ ys else y ∷ insert_sorted x ys

  unfoldable pub sort : List A → List A
  unfolding insert_sorted
  sort [] = []
  sort (x ∷ xs) = insert_sorted x (sort xs)

  unfoldable pub sorted_from : A → List A → Bool
  sorted_from x [] = true
  sorted_from x (y ∷ ys) = order.leb x y && sorted_from y ys

  unfoldable pub is_sorted : List A → Bool
  unfolding sorted_from
  is_sorted [] = true
  is_sorted (x ∷ xs) = sorted_from x xs

  unfoldable pub from_unsorted : List A → Sorted A
  unfolding sort
  from_unsorted values = record { values = sort values }

  -- On the right, the values that are given back.
  unfoldable pub from_sorted : List A → Sorted A ⊎ List A
  unfolding is_sorted
  from_sorted values = if is_sorted values then inl (record { values = values }) else inr values

pub record Quantile (F : Type 0) : Type 0 where
  pub value : F

-- `checked_sub(1)` of the index.
abbrev pub at_rank : {A : Type 0} → ℕ → List A → Option A
at_rank zero values = get_elem? values 0
at_rank (suc index) values = get_elem? values index

module _ {F : Type 0} (floats : Floats F) where
  -- On the right, the error.
  unfoldable pub quantile_new : F → Quantile F ⊎ Unit {0}
  quantile_new value =
      if floats.leb floats.zero value && floats.leb value floats.one
      then inl (record { value = value })
      else inr tt

  abbrev pub rank : Quantile F → ℕ → ℕ
  rank q n = floats.ceil (floats.mul q.value (floats.of_ℕ n))

  unfoldable pub quantile : {A : Type 0} → Quantile F → Sorted A → Option A
  quantile q s = elim s.values [ [] ↦ none | _ ∷ _ ↦ at_rank (rank q (length s.values)) s.values ]

  unfoldable pub median : {A : Type 0} → Sorted A → Option A
  unfolding quantile
  median s = quantile (record { value = floats.half }) s

-- The sum of the values as an `i128`.
unfoldable pub sum : List ℤ → ℤ
sum [] = pos 0
sum (x ∷ xs) = x +ℤ sum xs

unfoldable pub expect_i64 : ℤ → Result (Option ℤ)
expect_i64 m = if is_i64 m then ok (some m) else fault panic

-- A list of fewer than 2 ^ 64 values of 64 bits has its sum in 128 bits.
unfoldable pub mean : List ℤ → Result (Option ℤ)
unfolding sum expect_i64
mean [] = ok none
mean (x ∷ xs) = expect_i64 (div_ℤ (sum (x ∷ xs)) (length (x ∷ xs)))

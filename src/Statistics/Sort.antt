-- ===== src/Statistics/Sort.antt =====
-- `Sorted::from_unsorted` of src/statistics.rs sorts, and `Sorted::from_sorted` accepts what is sorted.
use mathlib.Core.List.{Perm}
use mathlib.Core.List.Perm
use ros2trace_analyzer.Common.{
  true, List, [], ◌∷◌, ◌≡◌, refl, inl, inr, Bool-cases, if◌then◌else◌, arith,
}
use ros2trace_analyzer.Statistics.{
  Order, insert_sorted, sort, sorted_from, is_sorted, from_unsorted, from_sorted,
}

module _ {A : Type 0} ⦃order : Order A⦄ where
  insert_sorted-sorted_from :
      (z x : A) (ys : List A)
      → order.leb z x ≡ true
      → sorted_from z ys ≡ true
      → sorted_from z (insert_sorted x ys) ≡ true
  unfolding insert_sorted sorted_from
  insert_sorted-sorted_from z x [] h s = ground arith
  insert_sorted-sorted_from z x (y ∷ ys) h s = elim (Bool-cases (order.leb x y)) [
    | inl below ↦ ground arith
    | inr above ↦
        ground (arith, insert_sorted-sorted_from y x ys (order.leb_total x y above) (ground arith))
  ]

  insert_sorted-is_sorted :
      (x : A) (ys : List A) → is_sorted ys ≡ true → is_sorted (insert_sorted x ys) ≡ true
  unfolding insert_sorted is_sorted sorted_from
  insert_sorted-is_sorted x [] s = refl
  insert_sorted-is_sorted x (y ∷ ys) s = elim (Bool-cases (order.leb x y)) [
    | inl below ↦ ground arith
    | inr above ↦
        ground (arith, insert_sorted-sorted_from y x ys (order.leb_total x y above) (ground arith))
  ]

  sort-is_sorted : (xs : List A) → is_sorted (sort xs) ≡ true
  unfolding sort is_sorted
  sort-is_sorted [] = refl
  sort-is_sorted (x ∷ xs) = insert_sorted-is_sorted x (sort xs) (sort-is_sorted xs)

  insert_sorted-Perm : (x : A) (ys : List A) → Perm (insert_sorted x ys) (x ∷ ys)
  unfolding insert_sorted
  insert_sorted-Perm x [] = Perm.rfl
  insert_sorted-Perm x (y ∷ ys) = elim (Bool-cases (order.leb x y)) [
    | inl below ↦ rw below Perm.rfl
    | inr above ↦ rw above (Perm.trans (Perm.cons y (insert_sorted-Perm x ys)) (Perm.swap x y ys))
  ]

  sort-Perm : (xs : List A) → Perm (sort xs) xs
  unfolding sort
  sort-Perm [] = Perm.rfl
  sort-Perm (x ∷ xs) = Perm.trans (insert_sorted-Perm x (sort xs)) (Perm.cons x (sort-Perm xs))

  -- Whatever the values, `from_unsorted` holds the same values, sorted.
  pub from_unsorted-sorts :
      (xs : List A)
      → (is_sorted (from_unsorted xs).values ≡ true) × Perm (from_unsorted xs).values xs
  unfolding from_unsorted
  from_unsorted-sorts xs = (sort-is_sorted xs, sort-Perm xs)

  insert_sorted-first :
      (x : A) (ys : List A) → is_sorted (x ∷ ys) ≡ true → insert_sorted x ys ≡ x ∷ ys
  unfolding insert_sorted is_sorted sorted_from
  insert_sorted-first x [] s = refl
  insert_sorted-first x (y ∷ ys) s = elim (Bool-cases (order.leb x y)) [
    | inl below ↦ rw below
    | inr above ↦ absurd (ground arith)
  ]

  is_sorted-tail : (x : A) (ys : List A) → is_sorted (x ∷ ys) ≡ true → is_sorted ys ≡ true
  unfolding is_sorted sorted_from
  is_sorted-tail x [] s = refl
  is_sorted-tail x (y ∷ ys) s = ground arith

  sort-sorted : (xs : List A) → is_sorted xs ≡ true → sort xs ≡ xs
  unfolding sort
  sort-sorted [] s = refl
  sort-sorted (x ∷ xs) s = rw (sort-sorted xs (is_sorted-tail x xs s), insert_sorted-first x xs s)

  -- Sorted values are accepted as `from_unsorted` would make them; any others are given back.
  pub from_sorted-from_unsorted :
      (xs : List A) → from_sorted xs ≡ (if is_sorted xs then inl (from_unsorted xs) else inr xs)
  unfolding from_sorted from_unsorted
  from_sorted-from_unsorted xs = elim (Bool-cases (is_sorted xs)) [
    | inl s ↦ rw (s, sort-sorted xs s)
    | inr unsorted ↦ rw unsorted
  ]

-- ===== src/Analysis/Table/Laws.antt =====
-- What is found after a change of a map or a set, and a map of lists as the grouping of what was pushed.
use ros2trace_analyzer.Common.{
  ℕ, suc, ◌+◌, length, length-append, false, none, some, List, [], ◌∷◌, ◌++◌, ◌≡◌, refl,
  if◌then◌else◌, ◌||◌, arith, Bool-cases, inl, inr,
}
use ros2trace_analyzer.Analysis.Table.{
  Key, Table, get, insert, remove, or_default, update, push, contains, add, delete,
}

module _ {K V : Type 0} ⦃key : Key K⦄ where
  pub get-insert :
      (j k : K) (v : V) (t : Table K V)
      → get j (insert k v t) ≡ (if key.same k j then some v else get j t)
  unfolding get insert
  get-insert j k v [] = refl
  get-insert j k v ((i, w) ∷ t) =
      ground (arith, key.same_iff k j, key.same_iff i k, key.same_iff i j, get-insert j k v t)

  pub get-remove :
      (j k : K) (t : Table K V) → get j (remove k t) ≡ (if key.same k j then none else get j t)
  unfolding get remove
  get-remove j k [] = ground arith
  get-remove j k ((i, w) ∷ t) =
      ground (arith, key.same_iff k j, key.same_iff i k, key.same_iff i j, get-remove j k t)

  pub get-update :
      (j k : K) (d : V) (f : V → V) (t : Table K V)
      → get j (update k d f t)
        ≡ (if key.same k j then some (f (or_default d (get k t))) else get j t)
  unfolding update
  get-update j k d f t = get-insert j k (f (or_default d (get k t))) t

-- What is listed under a key; nothing where the key is missing.
abbrev pub series : {K V : Type 0} ⦃key : Key K⦄ → K → Table K (List V) → List V
series k t = or_default [] (get k t)

module _ {K V : Type 0} ⦃key : Key K⦄ where
  pub series-push :
      (j k : K) (v : V) (t : Table K (List V))
      → series j (push k v t) ≡ (if key.same k j then series j t ++ v ∷ [] else series j t)
  unfolding push
  series-push j k v t =
      ground (arith, key.same_iff k j, get-update j k [] (λ (vs : List V). vs ++ v ∷ []) t)

module _ {K : Type 0} ⦃key : Key K⦄ where
  contains-append : (j k : K) (s : List K) → contains j (s ++ k ∷ []) ≡ contains j s || key.same k j
  unfolding contains
  contains-append j k [] = ground arith
  contains-append j k (i ∷ s) = ground (arith, contains-append j k s)

  pub contains-add : (j k : K) (s : List K) → contains j (add k s) ≡ contains j s || key.same k j
  unfolding add
  contains-add j k s = ground (arith, key.same_iff k j, contains-append j k s)

  pub contains-delete :
      (j k : K) (s : List K)
      → contains j (delete k s) ≡ (if key.same k j then false else contains j s)
  unfolding contains delete
  contains-delete j k [] = ground arith
  contains-delete j k (i ∷ s) =
      ground (arith, key.same_iff k j, key.same_iff i k, key.same_iff i j, contains-delete j k s)

-- What holds of the values of a map, missing ones at their default, holds still after an insertion.
abbrev pub All : {K V : Type 0} ⦃key : Key K⦄ → (V → Type 0) → V → Table K V → Type 0
All {K} P d t = (k : K) → P (or_default d (get k t))

pub insert-All :
    {K V : Type 0} ⦃key : Key K⦄ (P : V → Type 0) (d : V) (k : K) (v : V) (t : Table K V)
    → All P d t
    → P v
    → All P d (insert k v t)
insert-All ⦃key⦄ P d k v t all p j = elim (Bool-cases (key.same k j)) [
  | inl same ↦ rw (get-insert j k v t, same) p
  | inr other ↦ rw (get-insert j k v t, other) (all j)
]

-- How many values the lists of a map hold together.
unfoldable pub total : {K V : Type 0} → Table K (List V) → ℕ
total [] = 0
total ((k, vs) ∷ t) = length vs + total t

total-insert :
    {K V : Type 0} ⦃key : Key K⦄ (k : K) (vs : List V) (t : Table K (List V))
    → total (insert k vs t) + length (series k t) ≡ total t + length vs
unfolding insert get total
total-insert k vs [] = omega arith
total-insert ⦃key⦄ k vs ((j, ws) ∷ t) = elim (Bool-cases (key.same j k)) [
  | inl same ↦ rw same (omega arith)
  | inr other ↦ rw other (omega (arith, total-insert k vs t))
]

pub total-push :
    {K V : Type 0} ⦃key : Key K⦄ (k : K) (v : V) (t : Table K (List V))
    → total (push k v t) ≡ suc (total t)
unfolding push update
total-push k v t =
    omega (arith, total-insert k (series k t ++ v ∷ []) t, length-append (series k t) (v ∷ []))

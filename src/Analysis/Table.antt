-- ===== src/Analysis/Table.antt =====
-- The maps and sets of the analyses (`HashMap`, `HashSet`), as lists: a map lists its entries, a set its
-- elements, each once. Their order stands for the unspecified one of the library's containers.
pub mod Laws
use ros2trace_analyzer.Common.{
  ℕ, Bool, true, false, Option, none, some, List, [], ◌∷◌, ◌++◌, ◌==◌, ==_iff, ◌≡◌, ◌↔◌,
  if◌then◌else◌, ◌&&◌, ◌||◌, arith,
}

pub record Key {ℓ} (K : Type ℓ) : Type ℓ where
  pub same : K → K → Bool
  pub same_iff : (a b : K) → (same a b ≡ true) ↔ (a ≡ b)

-- `ArcMutWrapper`: an object is the same when its address is.
instance abbrev pub ref_key : Key ℕ
ref_key = record { same = ◌==◌; same_iff = ==_iff }

abbrev pub pair_eq : {A B : Type 0} ⦃a : Key A⦄ ⦃b : Key B⦄ → A × B → A × B → Bool
pair_eq ⦃a⦄ ⦃b⦄ x y = a.same x.0 y.0 && b.same x.1 y.1

abbrev pub option_eq : {A : Type 0} ⦃a : Key A⦄ → Option A → Option A → Bool
option_eq none none = true
option_eq none (some y) = false
option_eq (some x) none = false
option_eq ⦃a⦄ (some x) (some y) = a.same x y

pub pair_eq_iff :
    {A B : Type 0} ⦃a : Key A⦄ ⦃b : Key B⦄ (x y : A × B) → (pair_eq x y ≡ true) ↔ (x ≡ y)
pair_eq_iff ⦃a⦄ ⦃b⦄ x y = ground (arith, a.same_iff x.0 y.0, b.same_iff x.1 y.1)

pub option_eq_iff : {A : Type 0} ⦃a : Key A⦄ (x y : Option A) → (option_eq x y ≡ true) ↔ (x ≡ y)
option_eq_iff none none = ground arith
option_eq_iff none (some y) = ground arith
option_eq_iff (some x) none = ground arith
option_eq_iff ⦃a⦄ (some x) (some y) = ground (arith, a.same_iff x y)

instance abbrev pub pair_key : {A B : Type 0} ⦃a : Key A⦄ ⦃b : Key B⦄ → Key (A × B)
pair_key = record { same = pair_eq; same_iff = pair_eq_iff }

instance abbrev pub option_key : {A : Type 0} ⦃a : Key A⦄ → Key (Option A)
option_key = record { same = option_eq; same_iff = option_eq_iff }

abbrev pub Table : Type 0 → Type 0 → Type 0
Table K V = List (K × V)

abbrev pub or_default : {V : Type 0} → V → Option V → V
or_default d none = d
or_default d (some v) = v

module _ {K V : Type 0} ⦃key : Key K⦄ where
  unfoldable pub get : K → Table K V → Option V
  get k [] = none
  get k ((j, v) ∷ t) = if key.same j k then some v else get k t

  unfoldable pub insert : K → V → Table K V → Table K V
  insert k v [] = (k, v) ∷ []
  insert k v ((j, w) ∷ t) = if key.same j k then (k, v) ∷ t else (j, w) ∷ insert k v t

  unfoldable pub remove : K → Table K V → Table K V
  remove k [] = []
  remove k ((j, w) ∷ t) = if key.same j k then remove k t else (j, w) ∷ remove k t

  -- `entry(k).or_default()`, and a change of what is there.
  unfoldable pub update : K → V → (V → V) → Table K V → Table K V
  unfolding get insert
  update k d f t = insert k (f (or_default d (get k t))) t

-- `entry(k).or_default().push(v)`.
unfoldable pub push : {K V : Type 0} ⦃key : Key K⦄ → K → V → Table K (List V) → Table K (List V)
unfolding update
push k v t = update k [] (λ vs. vs ++ v ∷ []) t

module _ {K : Type 0} ⦃key : Key K⦄ where
  unfoldable pub contains : K → List K → Bool
  contains k [] = false
  contains k (j ∷ s) = key.same j k || contains k s

  unfoldable pub add : K → List K → List K
  unfolding contains
  add k s = if contains k s then s else s ++ k ∷ []

  unfoldable pub delete : K → List K → List K
  delete k [] = []
  delete k (j ∷ s) = if key.same j k then delete k s else j ∷ delete k s

-- ===== src/Processor/Hosts/Numbering.antt =====
-- The numbers that `host_to_host_id` gives to hosts.
use ros2trace_analyzer.Common.{
  ℕ, String, Option, none, some, List, [], ◌∷◌, ◌++◌, ◌≡◌, refl, ◌<◌, arith, str_eq, str_eq_iff,
  str_eq_refl, length, length-append, if◌then◌else◌,
}
use ros2trace_analyzer.Processor.State.{World}
use ros2trace_analyzer.Processor.Exec.{done}
use ros2trace_analyzer.Processor.Hosts.{lookup, entry_or_insert, host_to_host_id}

abbrev pub Hosts : Type 0
Hosts = List (String × ℕ)

-- Numbers are below the count of hosts, and no two hosts share one.
pub record IsNumbered (hosts : Hosts) : Type 0 where
  pub below : (host : String) (id : ℕ) → lookup host hosts ≡ some id → id < length hosts
  pub distinct :
      (host host' : String) (id : ℕ)
      → lookup host hosts ≡ some id
      → lookup host' hosts ≡ some id
      → host ≡ host'

-- An entry at the end is found by its own host only, and hides no other.
lookup-snoc :
    (host new : String) (id : ℕ) (hosts : Hosts)
    → lookup host (hosts ++ (new, id) ∷ []) ≡ (elim (lookup host hosts) [
      | some k ↦ some k
      | none ↦ if str_eq new host then some id else none
    ])
unfolding lookup
lookup-snoc host new id [] = refl
lookup-snoc host new id ((h, k) ∷ hosts) = ground (arith, lookup-snoc host new id hosts)

-- A host that had a number keeps it, and the host of the event gets the number that is returned.
pub host_to_host_id-keeps :
    (host other : String) (w : World) {id k : ℕ} {w' : World}
    → host_to_host_id host w ≡ done id w'
    → (lookup host w'.hostname_to_host_id ≡ some id)
      × (lookup other w.hostname_to_host_id ≡ some k → lookup other w'.hostname_to_host_id ≡ some k)
unfolding host_to_host_id entry_or_insert
host_to_host_id-keeps host other w h = ground (
  arith,
  str_eq_refl host,
  lookup-snoc host host (length w.hostname_to_host_id) w.hostname_to_host_id,
  lookup-snoc other host (length w.hostname_to_host_id) w.hostname_to_host_id,
)

entry-below :
    (host new : String) (id : ℕ) (hosts : Hosts)
    → IsNumbered hosts
    → lookup host (hosts ++ (new, length hosts) ∷ []) ≡ some id
    → id < length (hosts ++ (new, length hosts) ∷ [])
entry-below host new id hosts numbered found = ground (
  arith,
  lookup-snoc host new (length hosts) hosts,
  length-append hosts ((new, length hosts) ∷ []),
  numbered.below host id,
)

entry-distinct :
    (host host' new : String) (id : ℕ) (hosts : Hosts)
    → IsNumbered hosts
    → lookup host (hosts ++ (new, length hosts) ∷ []) ≡ some id
    → lookup host' (hosts ++ (new, length hosts) ∷ []) ≡ some id
    → host ≡ host'
entry-distinct host host' new id hosts numbered found found' = ground (
  arith,
  lookup-snoc host new (length hosts) hosts,
  lookup-snoc host' new (length hosts) hosts,
  numbered.below host id,
  numbered.below host' id,
  numbered.distinct host host' id,
  str_eq_iff new host,
  str_eq_iff new host',
)

entry_or_insert-IsNumbered :
    (host : String) (hosts : Hosts) (entry : Option ℕ)
    → IsNumbered hosts
    → IsNumbered (entry_or_insert host hosts entry).1
unfolding entry_or_insert
entry_or_insert-IsNumbered host hosts (some id) numbered = numbered
entry_or_insert-IsNumbered host hosts none numbered = record {
  below = λ h id found. entry-below h host id hosts numbered found;
  distinct = λ h h' id found found'. entry-distinct h h' host id hosts numbered found found';
}

-- Hosts with distinct numbers below their count stay so when one more host is numbered.
pub host_to_host_id-IsNumbered :
    (host : String) (w : World) {id : ℕ} {w' : World}
    → host_to_host_id host w ≡ done id w'
    → IsNumbered w.hostname_to_host_id
    → IsNumbered w'.hostname_to_host_id
unfolding host_to_host_id
host_to_host_id-IsNumbered host w h numbered = ground (
  arith,
  entry_or_insert-IsNumbered host w.hostname_to_host_id (lookup host w.hostname_to_host_id)
      numbered,
)

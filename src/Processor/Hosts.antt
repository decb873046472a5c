-- ===== src/Processor/Hosts.antt =====
-- `Processor::host_to_host_id` of src/processor/mod.rs. `hostname_to_host_id` is an association list.
pub mod Numbering
use ros2trace_analyzer.Common.{
  ℕ, String, Option, none, some, List, [], ◌∷◌, ◌++◌, str_eq, length, ltb, ◌^◌, panic,
  if◌then◌else◌,
}
use ros2trace_analyzer.Processor.Exec.{M, done, faulted}

unfoldable pub lookup : String → List (String × ℕ) → Option ℕ
lookup hostname [] = none
lookup hostname ((h, id) ∷ l) = if str_eq h hostname then some id else lookup hostname l

-- `len().try_into()` of a `usize` into a `u32`; the host id, and the map with the entry.
unfoldable pub entry_or_insert : String → List (String × ℕ) → Option ℕ → ℕ × List (String × ℕ)
entry_or_insert hostname hosts (some id) = (id, hosts)
entry_or_insert hostname hosts none = (length hosts, hosts ++ (hostname, length hosts) ∷ [])

unfoldable pub host_to_host_id : String → M ℕ
host_to_host_id hostname w =
    let hosts = w.hostname_to_host_id in
    let result = entry_or_insert hostname hosts (lookup hostname hosts) in
    if ltb (length hosts) (2 ^ 32)
    then done result.0 (record w { hostname_to_host_id = result.1 })
    else faulted panic

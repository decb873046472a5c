-- ===== src/Model/Name.antt =====
-- `Name` of src/model/mod.rs: the full name of a node, cut at the end of its namespace.
pub mod RoundTrip
use Prim.Native.String.{String, ◌++◌, len, slice}
use ros2trace_analyzer.Common.{ℕ}

pub record Name : Type 0 where
  pub full_name : String
  pub namespace_len : ℕ

unfoldable pub new : String → String → Name
new namespace name = record { full_name = namespace ++ name; namespace_len = len namespace }

unfoldable pub get_full_name : Name → String
get_full_name n = n.full_name

unfoldable pub get_namespace : Name → String
get_namespace n = slice n.full_name 0 n.namespace_len

unfoldable pub get_name : Name → String
get_name n = slice n.full_name n.namespace_len (len n.full_name)

-- ===== src/Model/Name/RoundTrip.antt =====
-- The parts of a node's full name in src/model/mod.rs.
use Prim.Native.String.{String, ◌++◌, len, slice}
use text.Mathlib.TextPositions.{len-append, slice-append_left, slice-append_right}
use ros2trace_analyzer.Common.{◌≡◌, refl, ap, ◌∙◌}
use ros2trace_analyzer.Model.Name

-- A name that is made of a namespace and a node name gives both back, and its full name is one
-- behind the other.
pub new-parts :
    (namespace name : String)
    → (Name.get_namespace (Name.new namespace name) ≡ namespace)
      × (Name.get_name (Name.new namespace name) ≡ name)
      × (Name.get_full_name (Name.new namespace name) ≡ namespace ++ name)
unfolding Name.new Name.get_namespace Name.get_name Name.get_full_name
new-parts namespace name = (
  slice-append_left namespace name,
  ap (slice (namespace ++ name) (len namespace)) (len-append namespace name)
      ∙ slice-append_right namespace name,
  refl,
)

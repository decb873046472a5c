-- ===== src/Model/Gid/Bytes.antt =====
-- The two parts of a gid in src/model/mod.rs lose nothing of its bytes.
use ros2trace_analyzer.Common.{
  ℕ, true, List, ◌++◌, ◌≡◌, ◌↔◌, take-append-drop, eq_of_bytes_eq, bytes_eq_refl, arith, ap, ◌∙◌,
}
use ros2trace_analyzer.Model.Gid
use ros2trace_analyzer.Model.Gid.{RmwGid, gid_eq}

bytes_of-new : (a : List ℕ) → (Gid.new a).gid ++ (Gid.new a).gid_suffix ≡ a
unfolding Gid.new
bytes_of-new a = take-append-drop Gid.gid_size a

gid_eq_sound : (a b : List ℕ) → gid_eq (Gid.new a) (Gid.new b) ≡ true → a ≡ b
unfolding gid_eq
gid_eq_sound a b h = grind (
  arith,
  bytes_of-new a,
  bytes_of-new b,
  eq_of_bytes_eq (Gid.new a).gid (Gid.new b).gid,
  eq_of_bytes_eq (Gid.new a).gid_suffix (Gid.new b).gid_suffix,
)

gid_eq-same : (g : RmwGid) → gid_eq g g ≡ true
unfolding gid_eq
gid_eq-same g = grind (arith, bytes_eq_refl g.gid, bytes_eq_refl g.gid_suffix)

-- Two gids are equal for the derived comparison exactly when their bytes are.
pub new-gid_eq : (a b : List ℕ) → (gid_eq (Gid.new a) (Gid.new b) ≡ true) ↔ (a ≡ b)
new-gid_eq a b =
    (gid_eq_sound a b, λ h. ap (λ x. gid_eq (Gid.new x) (Gid.new b)) h ∙ gid_eq-same (Gid.new b))

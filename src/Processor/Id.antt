-- ===== src/Processor/Id.antt =====
-- `ContextId` and `Id<T>` (here `HandleId`) of src/processor/mod.rs: a handle means something only together with the
-- process and the host that it was seen in.
use ros2trace_analyzer.Common.{ℕ, Bool, true, ◌&&◌, ◌==◌, ◌≡◌, ◌↔◌, arith}

pub record ContextId : Type 0 where
  pub vpid : ℕ
  pub host_id : ℕ

pub record HandleId : Type 0 where
  pub id : ℕ
  pub context : ContextId

abbrev pub into_id : ℕ → ContextId → HandleId
into_id id context = record { id = id; context = context }

-- The derived `PartialEq`.
unfoldable pub id_eq : HandleId → HandleId → Bool
id_eq a b =
    a.id == b.id && (a.context.vpid == b.context.vpid && a.context.host_id == b.context.host_id)

pub id_eq_iff : (a b : HandleId) → (id_eq a b ≡ true) ↔ (a ≡ b)
unfolding id_eq
id_eq_iff a b = ground arith

pub id_eq_refl : (a : HandleId) → id_eq a a ≡ true
unfolding id_eq
id_eq_refl a = ground arith

-- ===== src/Model/Gid.antt =====
-- `RmwGid` of src/model/mod.rs: the 24 bytes of a gid, as the 16 of the DDS gid and 8 more.
pub mod Bytes
use ros2trace_analyzer.Common.{ℕ, Bool, List, ◌&&◌, take, drop, bytes_eq}

abbrev pub gid_size : ℕ
gid_size = 16

pub record RmwGid : Type 0 where
  pub gid : List ℕ
  pub gid_suffix : List ℕ

unfoldable pub new : List ℕ → RmwGid
new gid = record { gid = take gid_size gid; gid_suffix = drop gid_size gid }

-- The derived `PartialEq`.
unfoldable pub gid_eq : RmwGid → RmwGid → Bool
gid_eq a b = bytes_eq a.gid b.gid && bytes_eq a.gid_suffix b.gid_suffix

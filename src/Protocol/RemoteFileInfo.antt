-- ===== src/Protocol/RemoteFileInfo.antt =====
-- RemoteFileInfo of include/protocol/message.h, with the bodies of the loops over `entries` in
-- src/protocol/message.cpp.
use net_copy.Common.{ℕ, List, [], ◌∷◌, Bool, false, arith}
use net_copy.Protocol.Reader.{
  Reader, Reads, Yields, ◌>>=◌, return, if_remaining, concat, seq, return-Reads, seq-Yields,
  return-Yields, if_remaining-Yields,
}
use net_copy.Protocol.Wire.{
  IsU32, IsU64, IsSized, write_bool, write_uint32, write_uint64, write_string, read_bool, bool_or,
  read_uint32, read_uint64, read_string,
}
use net_copy.Protocol.Wire.Laws.{
  bool-Reads, bool_or-Reads, uint64-Reads, string-Reads, uint32_or-Reads, string_or-Reads,
}
use net_copy.Protocol.Wire.Ranges.{
  Anything, bool-Yields, bool_or-Yields, uint32-Yields, uint64-Yields, string-Yields,
}

pub record RemoteFileInfo : Type 0 where
  pub path : List ℕ
  pub size : ℕ
  pub is_directory : Bool
  pub last_modified : ℕ
  pub permissions : ℕ
  pub is_symlink : Bool
  pub symlink_target : List ℕ

-- Every field is in the range of its C++ type.
pub record IsValid (m : RemoteFileInfo) : Type 0 where
  pub path : IsSized m.path
  pub size : IsU64 m.size
  pub last_modified : IsU64 m.last_modified
  pub permissions : IsU32 m.permissions
  pub symlink_target : IsSized m.symlink_target

unfoldable pub write_entry : RemoteFileInfo → List ℕ
write_entry m = concat (
    write_string m.path
    ∷ write_uint64 m.size
    ∷ write_bool m.is_directory
    ∷ write_uint64 m.last_modified
    ∷ write_uint32 m.permissions
    ∷ write_bool m.is_symlink
    ∷ write_string m.symlink_target
    ∷ [])

unfoldable pub read_entry : Reader RemoteFileInfo
read_entry = do
  path ← read_string
  size ← read_uint64
  is_directory ← read_bool "ListResponse: missing entry is_directory byte"
  last_modified ← read_uint64
  permissions ← if_remaining 1 read_uint32 0
  is_symlink ← bool_or false
  symlink_target ← if_remaining 1 read_string []
  return (record {
    path = path;
    size = size;
    is_directory = is_directory;
    last_modified = last_modified;
    permissions = permissions;
    is_symlink = is_symlink;
    symlink_target = symlink_target;
  })

pub entry-Reads : (m : RemoteFileInfo) → IsValid m → Reads read_entry (write_entry m) m
unfolding write_entry read_entry
entry-Reads m v = seq _ (string-Reads _ v.path) (
    seq _ (uint64-Reads _ v.size) (
      seq _ (bool-Reads _ _) (
        seq _ (uint64-Reads _ v.last_modified) (
          seq _ (uint32_or-Reads 1 _ _ (omega arith) v.permissions) (
            seq _ (bool_or-Reads _ _)
              (seq _ (string_or-Reads 1 _ _ (omega arith) v.symlink_target) (return-Reads _)))))))

pub entry-Yields : Yields IsValid read_entry
unfolding read_entry
entry-Yields = seq-Yields IsSized string-Yields λ path h0. seq-Yields IsU64 uint64-Yields λ size h1.
    seq-Yields Anything (bool-Yields _) λ is_directory h2.
      seq-Yields IsU64 uint64-Yields λ last_modified h3.
        seq-Yields IsU32 (if_remaining-Yields IsU32 1 _ _ uint32-Yields (omega arith))
          λ permissions h4. seq-Yields Anything (bool_or-Yields _) λ is_symlink h5.
            seq-Yields IsSized (if_remaining-Yields IsSized 1 _ _ string-Yields (tt, omega arith))
              λ symlink_target h6. return-Yields IsValid _ (record {
                path = h0;
                size = h1;
                last_modified = h3;
                permissions = h4;
                symlink_target = h6;
              })

-- ===== src/Protocol/FileRequest.antt =====
-- FileRequest of include/protocol/message.h and src/protocol/message.cpp.
pub mod Older
use net_copy.Common.{
  ℕ, ◌^◌, ◌<◌, ◌≡◌, List, [], ◌∷◌, ◌++◌, Bool, true, false, arith, length, String,
}
use net_copy.Protocol.Reader.{
  Reader, Reads, Yields, ◌>>=◌, return, if_remaining, concat, seq, return-Reads, seq-Yields,
  return-Yields, if_remaining-Yields,
}
use net_copy.Protocol.Wire.{
  IsU8, IsU32, IsU64, IsSized, write_uint8, write_bool, write_uint32, write_uint64, write_bytes,
  write_string, read_uint8, uint8_or, read_bool, bool_or, read_uint32, read_uint64, read_bytes,
  read_string,
}
use net_copy.Protocol.Wire.Laws.{
  uint8-Reads, uint8_or-Reads, bool-Reads, bool_or-Reads, uint32-Reads, uint64-Reads, bytes-Reads,
  string-Reads, uint64_or-Reads, uint32_or-Reads, string_or-Reads,
}
use net_copy.Protocol.Wire.Ranges.{
  Anything, uint8-Yields, uint8_or-Yields, bool-Yields, bool_or-Yields, uint32-Yields,
  uint64-Yields, bytes-Yields, string-Yields,
}

pub record FileRequest : Type 0 where
  pub source_path : List ℕ
  pub destination_path : List ℕ
  pub recursive : Bool
  pub resume_offset : ℕ
  pub auto_create_directories : Bool
  pub truncate_destination : Bool
  pub permissions : ℕ
  pub is_symlink : Bool
  pub symlink_target : List ℕ
  pub file_size : ℕ
  pub last_modified : ℕ

-- A fresh object. The fields that the constructor leaves unset are read on every path.
abbrev pub init : FileRequest
init = record {
  source_path = [];
  destination_path = [];
  recursive = false;
  resume_offset = 0;
  auto_create_directories = true;
  truncate_destination = false;
  permissions = 0;
  is_symlink = false;
  symlink_target = [];
  file_size = 0;
  last_modified = 0;
}

-- Every field is in the range of its C++ type.
pub record IsValid (m : FileRequest) : Type 0 where
  pub source_path : IsSized m.source_path
  pub destination_path : IsSized m.destination_path
  pub resume_offset : IsU64 m.resume_offset
  pub permissions : IsU32 m.permissions
  pub symlink_target : IsSized m.symlink_target
  pub file_size : IsU64 m.file_size
  pub last_modified : IsU64 m.last_modified

unfoldable pub serialize_payload : FileRequest → List ℕ
serialize_payload m = concat (
    write_string m.source_path
    ∷ write_string m.destination_path
    ∷ write_bool m.recursive
    ∷ write_uint64 m.resume_offset
    ∷ write_bool m.auto_create_directories
    ∷ write_bool m.truncate_destination
    ∷ write_uint32 m.permissions
    ∷ write_bool m.is_symlink
    ∷ write_string m.symlink_target
    ∷ write_uint64 m.file_size
    ∷ write_uint64 m.last_modified
    ∷ [])

-- `m` is the object that is read into: what the buffer lacks keeps its value.
unfoldable pub read_payload : FileRequest → Reader FileRequest
read_payload m = do
  source_path ← read_string
  destination_path ← read_string
  recursive ← read_bool "Buffer underflow reading recursive flag"
  resume_offset ← read_uint64
  auto_create_directories ← bool_or m.auto_create_directories
  truncate_destination ← bool_or false
  permissions ← if_remaining 1 read_uint32 0
  is_symlink ← bool_or false
  symlink_target ← if_remaining 1 read_string []
  file_size ← if_remaining 1 read_uint64 0
  last_modified ← if_remaining 1 read_uint64 0
  return (record {
    source_path = source_path;
    destination_path = destination_path;
    recursive = recursive;
    resume_offset = resume_offset;
    auto_create_directories = auto_create_directories;
    truncate_destination = truncate_destination;
    permissions = permissions;
    is_symlink = is_symlink;
    symlink_target = symlink_target;
    file_size = file_size;
    last_modified = last_modified;
  })

pub payload-Reads :
    (m₀ : FileRequest) (m : FileRequest)
    → IsValid m
    → Reads (read_payload m₀) (serialize_payload m) m
unfolding serialize_payload read_payload
payload-Reads m₀ m v = seq _ (string-Reads _ v.source_path) (
    seq _ (string-Reads _ v.destination_path) (
      seq _ (bool-Reads _ _) (
        seq _ (uint64-Reads _ v.resume_offset) (
          seq _ (bool_or-Reads _ _) (
            seq _ (bool_or-Reads _ _) (
              seq _ (uint32_or-Reads 1 _ _ (omega arith) v.permissions) (
                seq _ (bool_or-Reads _ _) (
                  seq _ (string_or-Reads 1 _ _ (omega arith) v.symlink_target) (
                    seq _ (uint64_or-Reads 1 _ _ (omega arith) v.file_size) (
                      seq _ (uint64_or-Reads 1 _ _ (omega arith) v.last_modified)
                        (return-Reads _)))))))))))

pub payload-Yields : (m₀ : FileRequest) → IsValid m₀ → Yields IsValid (read_payload m₀)
unfolding read_payload
payload-Yields m₀ v₀ = seq-Yields IsSized string-Yields λ source_path h0.
    seq-Yields IsSized string-Yields λ destination_path h1.
      seq-Yields Anything (bool-Yields _) λ recursive h2.
        seq-Yields IsU64 uint64-Yields λ resume_offset h3.
          seq-Yields Anything (bool_or-Yields _) λ auto_create_directories h4.
            seq-Yields Anything (bool_or-Yields _) λ truncate_destination h5.
              seq-Yields IsU32 (if_remaining-Yields IsU32 1 _ _ uint32-Yields (omega arith))
                λ permissions h6. seq-Yields Anything (bool_or-Yields _) λ is_symlink h7.
                  seq-Yields IsSized
                    (if_remaining-Yields IsSized 1 _ _ string-Yields (tt, omega arith))
                    λ symlink_target h8.
                      seq-Yields IsU64 (if_remaining-Yields IsU64 1 _ _ uint64-Yields (omega arith))
                        λ file_size h9.
                          seq-Yields IsU64
                            (if_remaining-Yields IsU64 1 _ _ uint64-Yields (omega arith))
                            λ last_modified h10. return-Yields IsValid _ (record {
                              source_path = h0;
                              destination_path = h1;
                              resume_offset = h3;
                              permissions = h6;
                              symlink_target = h8;
                              file_size = h9;
                              last_modified = h10;
                            })

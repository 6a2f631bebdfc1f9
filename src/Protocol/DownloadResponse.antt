-- ===== src/Protocol/DownloadResponse.antt =====
-- DownloadResponse of include/protocol/message.h and src/protocol/message.cpp.
pub mod Older
use net_copy.Common.{
  ℕ, ◌^◌, ◌<◌, ◌≡◌, List, [], ◌∷◌, ◌++◌, Bool, true, false, arith, length, String,
}
use net_copy.Protocol.Reader.{
  Reader, Reads, Yields, ◌>>=◌, return, if_remaining, concat, seq, return-Reads, seq-Yields,
  return-Yields, if_remaining-Yields,
}
use net_copy.Protocol.Wire.{
  IsU8, IsU32, IsU64, IsSized, write_uint8, write_bool, write_uint32, write_uint64, write_bytes,
  write_string, read_uint8, uint8_or, read_bool, bool_or, read_uint32, read_uint64, read_bytes,
  read_string,
}
use net_copy.Protocol.Wire.Laws.{
  uint8-Reads, uint8_or-Reads, bool-Reads, bool_or-Reads, uint32-Reads, uint64-Reads, bytes-Reads,
  string-Reads, uint64_or-Reads, uint32_or-Reads, string_or-Reads,
}
use net_copy.Protocol.Wire.Ranges.{
  Anything, uint8-Yields, uint8_or-Yields, bool-Yields, bool_or-Yields, uint32-Yields,
  uint64-Yields, bytes-Yields, string-Yields,
}

pub record DownloadResponse : Type 0 where
  pub success : Bool
  pub error_message : List ℕ
  pub file_size : ℕ
  pub is_directory : Bool
  pub permissions : ℕ
  pub is_symlink : Bool
  pub symlink_target : List ℕ
  pub session_id : List ℕ
  pub last_modified : ℕ

-- Every field is in the range of its C++ type.
pub record IsValid (m : DownloadResponse) : Type 0 where
  pub error_message : IsSized m.error_message
  pub file_size : IsU64 m.file_size
  pub permissions : IsU32 m.permissions
  pub symlink_target : IsSized m.symlink_target
  pub session_id : IsSized m.session_id
  pub last_modified : IsU64 m.last_modified

unfoldable pub serialize_payload : DownloadResponse → List ℕ
serialize_payload m = concat (
    write_bool m.success
    ∷ write_string m.error_message
    ∷ write_uint64 m.file_size
    ∷ write_bool m.is_directory
    ∷ write_uint32 m.permissions
    ∷ write_bool m.is_symlink
    ∷ write_string m.symlink_target
    ∷ write_string m.session_id
    ∷ write_uint64 m.last_modified
    ∷ [])

unfoldable pub read_payload : Reader DownloadResponse
read_payload = do
  success ← read_bool "DownloadResponse: missing success byte"
  error_message ← read_string
  file_size ← read_uint64
  is_directory ← read_bool "DownloadResponse: missing is_directory byte"
  permissions ← if_remaining 1 read_uint32 0
  is_symlink ← bool_or false
  symlink_target ← if_remaining 1 read_string []
  session_id ← if_remaining 1 read_string []
  last_modified ← if_remaining 1 read_uint64 0
  return (record {
    success = success;
    error_message = error_message;
    file_size = file_size;
    is_directory = is_directory;
    permissions = permissions;
    is_symlink = is_symlink;
    symlink_target = symlink_target;
    session_id = session_id;
    last_modified = last_modified;
  })

pub payload-Reads : (m : DownloadResponse) → IsValid m → Reads read_payload (serialize_payload m) m
unfolding serialize_payload read_payload
payload-Reads m v = seq _ (bool-Reads _ _) (
    seq _ (string-Reads _ v.error_message) (
      seq _ (uint64-Reads _ v.file_size) (
        seq _ (bool-Reads _ _) (
          seq _ (uint32_or-Reads 1 _ _ (omega arith) v.permissions) (
            seq _ (bool_or-Reads _ _) (
              seq _ (string_or-Reads 1 _ _ (omega arith) v.symlink_target) (
                seq _ (string_or-Reads 1 _ _ (omega arith) v.session_id) (
                  seq _ (uint64_or-Reads 1 _ _ (omega arith) v.last_modified)
                    (return-Reads _)))))))))

pub payload-Yields : Yields IsValid read_payload
unfolding read_payload
payload-Yields = seq-Yields Anything (bool-Yields _) λ success h0.
    seq-Yields IsSized string-Yields λ error_message h1.
      seq-Yields IsU64 uint64-Yields λ file_size h2.
        seq-Yields Anything (bool-Yields _) λ is_directory h3.
          seq-Yields IsU32 (if_remaining-Yields IsU32 1 _ _ uint32-Yields (omega arith))
            λ permissions h4. seq-Yields Anything (bool_or-Yields _) λ is_symlink h5.
              seq-Yields IsSized (if_remaining-Yields IsSized 1 _ _ string-Yields (tt, omega arith))
                λ symlink_target h6.
                  seq-Yields IsSized
                    (if_remaining-Yields IsSized 1 _ _ string-Yields (tt, omega arith))
                    λ session_id h7.
                      seq-Yields IsU64 (if_remaining-Yields IsU64 1 _ _ uint64-Yields (omega arith))
                        λ last_modified h8. return-Yields IsValid _ (record {
                          error_message = h1;
                          file_size = h2;
                          permissions = h4;
                          symlink_target = h6;
                          session_id = h7;
                          last_modified = h8;
                        })

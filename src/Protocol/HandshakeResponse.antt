-- ===== src/Protocol/HandshakeResponse.antt =====
-- HandshakeResponse of include/protocol/message.h and src/protocol/message.cpp.
use net_copy.Common.{ℕ, List, [], ◌∷◌, Bool, false, arith}
use net_copy.Protocol.Reader.{
  Reader, Reads, Yields, ◌>>=◌, return, if_remaining, concat, seq, return-Reads, seq-Yields,
  return-Yields, if_remaining-Yields,
}
use net_copy.Protocol.Wire.{
  IsU8, IsU32, IsU64, IsSized, write_uint8, write_bool, write_uint32, write_uint64, write_bytes,
  write_string, uint8_or, read_bool, bool_or, read_uint32, read_uint64, read_bytes, read_string,
}
use net_copy.Protocol.Wire.Laws.{
  uint8_or-Reads, bool-Reads, bool_or-Reads, bytes-Reads, string-Reads, uint64_or-Reads,
  uint32_or-Reads,
}
use net_copy.Protocol.Wire.Ranges.{
  Anything, uint8_or-Yields, bool-Yields, bool_or-Yields, uint32-Yields, uint64-Yields,
  bytes-Yields, string-Yields,
}

pub record HandshakeResponse : Type 0 where
  pub server_version : List ℕ
  pub server_nonce : List ℕ
  pub authentication_required : Bool
  pub accepted_security_level : ℕ
  pub max_chunk_size : ℕ
  pub accepted_parallel_streams : ℕ
  pub auto_create_directories_allowed : Bool

-- A fresh object. The fields that the constructor leaves unset are read on every path.
abbrev pub init : HandshakeResponse
init = record {
  server_version = [];
  server_nonce = [];
  authentication_required = false;
  accepted_security_level = 0;
  max_chunk_size = 0;
  accepted_parallel_streams = 1;
  auto_create_directories_allowed = false;
}

-- Every field is in the range of its C++ type.
pub record IsValid (m : HandshakeResponse) : Type 0 where
  pub server_version : IsSized m.server_version
  pub server_nonce : IsSized m.server_nonce
  pub accepted_security_level : IsU8 m.accepted_security_level
  pub max_chunk_size : IsU64 m.max_chunk_size
  pub accepted_parallel_streams : IsU32 m.accepted_parallel_streams

unfoldable pub serialize_payload : HandshakeResponse → List ℕ
serialize_payload m = concat (
    write_string m.server_version
    ∷ write_bytes m.server_nonce
    ∷ write_bool m.authentication_required
    ∷ write_uint8 m.accepted_security_level
    ∷ write_uint64 m.max_chunk_size
    ∷ write_uint32 m.accepted_parallel_streams
    ∷ write_bool m.auto_create_directories_allowed
    ∷ [])

-- `m` is the object that is read into: what the buffer lacks keeps its value.
unfoldable pub read_payload : HandshakeResponse → Reader HandshakeResponse
read_payload m = do
  server_version ← read_string
  server_nonce ← read_bytes
  authentication_required ← read_bool "Buffer underflow reading authentication flag"
  accepted_security_level ← uint8_or m.accepted_security_level
  max_chunk_size ← if_remaining 8 read_uint64 m.max_chunk_size
  accepted_parallel_streams ← if_remaining 4 read_uint32 1
  auto_create_directories_allowed ← bool_or false
  return (record {
    server_version = server_version;
    server_nonce = server_nonce;
    authentication_required = authentication_required;
    accepted_security_level = accepted_security_level;
    max_chunk_size = max_chunk_size;
    accepted_parallel_streams = accepted_parallel_streams;
    auto_create_directories_allowed = auto_create_directories_allowed;
  })

pub payload-Reads :
    (m₀ : HandshakeResponse) (m : HandshakeResponse)
    → IsValid m
    → Reads (read_payload m₀) (serialize_payload m) m
unfolding serialize_payload read_payload
payload-Reads m₀ m v = seq _ (string-Reads _ v.server_version) (
    seq _ (bytes-Reads _ v.server_nonce) (
      seq _ (bool-Reads _ _) (
        seq _ (uint8_or-Reads _ _ v.accepted_security_level) (
          seq _ (uint64_or-Reads 8 _ _ (omega arith) v.max_chunk_size) (
            seq _ (uint32_or-Reads 4 _ _ (omega arith) v.accepted_parallel_streams)
              (seq _ (bool_or-Reads _ _) (return-Reads _)))))))

pub payload-Yields : (m₀ : HandshakeResponse) → IsValid m₀ → Yields IsValid (read_payload m₀)
unfolding read_payload
payload-Yields m₀ v₀ = seq-Yields IsSized string-Yields λ server_version h0.
    seq-Yields IsSized bytes-Yields λ server_nonce h1.
      seq-Yields Anything (bool-Yields _) λ authentication_required h2.
        seq-Yields IsU8 (uint8_or-Yields _ v₀.accepted_security_level) λ accepted_security_level h3.
          seq-Yields IsU64 (if_remaining-Yields IsU64 8 _ _ uint64-Yields v₀.max_chunk_size)
            λ max_chunk_size h4.
              seq-Yields IsU32 (if_remaining-Yields IsU32 4 _ _ uint32-Yields (omega arith))
                λ accepted_parallel_streams h5.
                  seq-Yields Anything (bool_or-Yields _) λ auto_create_directories_allowed h6.
                    return-Yields IsValid _ (record {
                      server_version = h0;
                      server_nonce = h1;
                      accepted_security_level = h3;
                      max_chunk_size = h4;
                      accepted_parallel_streams = h5;
                    })

-- ===== src/Protocol/HandshakeRequest.antt =====
-- HandshakeRequest of include/protocol/message.h and src/protocol/message.cpp.
pub mod Older
use net_copy.Common.{
  ℕ, ◌^◌, ◌<◌, ◌≡◌, List, [], ◌∷◌, ◌++◌, Bool, true, false, arith, length, String,
}
use net_copy.Protocol.Reader.{
  Reader, Reads, Yields, ◌>>=◌, return, if_remaining, concat, seq, return-Reads, seq-Yields,
  return-Yields, if_remaining-Yields,
}
use net_copy.Protocol.Wire.{
  IsU8, IsU32, IsU64, IsSized, write_uint8, write_bool, write_uint32, write_uint64, write_bytes,
  write_string, read_uint8, uint8_or, read_bool, bool_or, read_uint32, read_uint64, read_bytes,
  read_string,
}
use net_copy.Protocol.Wire.Laws.{
  uint8-Reads, uint8_or-Reads, bool-Reads, bool_or-Reads, uint32-Reads, uint64-Reads, bytes-Reads,
  string-Reads, uint64_or-Reads, uint32_or-Reads, string_or-Reads,
}
use net_copy.Protocol.Wire.Ranges.{
  Anything, uint8-Yields, uint8_or-Yields, bool-Yields, bool_or-Yields, uint32-Yields,
  uint64-Yields, bytes-Yields, string-Yields,
}

pub record HandshakeRequest : Type 0 where
  pub client_version : List ℕ
  pub client_nonce : List ℕ
  pub security_level : ℕ
  pub max_chunk_size : ℕ
  pub file_size : ℕ
  pub requested_parallel_streams : ℕ
  pub username : List ℕ
  pub auth_method_id : ℕ

-- A fresh object. The fields that the constructor leaves unset are read on every path.
abbrev pub init : HandshakeRequest
init = record {
  client_version = [];
  client_nonce = [];
  security_level = 0;
  max_chunk_size = 0;
  file_size = 0;
  requested_parallel_streams = 1;
  username = [];
  auth_method_id = 0;
}

-- Every field is in the range of its C++ type.
pub record IsValid (m : HandshakeRequest) : Type 0 where
  pub client_version : IsSized m.client_version
  pub client_nonce : IsSized m.client_nonce
  pub security_level : IsU8 m.security_level
  pub max_chunk_size : IsU64 m.max_chunk_size
  pub file_size : IsU64 m.file_size
  pub requested_parallel_streams : IsU32 m.requested_parallel_streams
  pub username : IsSized m.username
  pub auth_method_id : IsU8 m.auth_method_id

unfoldable pub serialize_payload : HandshakeRequest → List ℕ
serialize_payload m = concat (
    write_string m.client_version
    ∷ write_bytes m.client_nonce
    ∷ write_uint8 m.security_level
    ∷ write_uint64 m.max_chunk_size
    ∷ write_uint64 m.file_size
    ∷ write_uint32 m.requested_parallel_streams
    ∷ write_string m.username
    ∷ write_uint8 m.auth_method_id
    ∷ [])

-- `m` is the object that is read into: what the buffer lacks keeps its value.
unfoldable pub read_payload : HandshakeRequest → Reader HandshakeRequest
read_payload m = do
  client_version ← read_string
  client_nonce ← read_bytes
  security_level ← uint8_or m.security_level
  max_chunk_size ← if_remaining 8 read_uint64 m.max_chunk_size
  file_size ← if_remaining 8 read_uint64 m.file_size
  requested_parallel_streams ← if_remaining 4 read_uint32 1
  username ← if_remaining 4 read_string m.username
  auth_method_id ← uint8_or 0
  return (record {
    client_version = client_version;
    client_nonce = client_nonce;
    security_level = security_level;
    max_chunk_size = max_chunk_size;
    file_size = file_size;
    requested_parallel_streams = requested_parallel_streams;
    username = username;
    auth_method_id = auth_method_id;
  })

pub payload-Reads :
    (m₀ : HandshakeRequest) (m : HandshakeRequest)
    → IsValid m
    → Reads (read_payload m₀) (serialize_payload m) m
unfolding serialize_payload read_payload
payload-Reads m₀ m v = seq _ (string-Reads _ v.client_version) (
    seq _ (bytes-Reads _ v.client_nonce) (
      seq _ (uint8_or-Reads _ _ v.security_level) (
        seq _ (uint64_or-Reads 8 _ _ (omega arith) v.max_chunk_size) (
          seq _ (uint64_or-Reads 8 _ _ (omega arith) v.file_size) (
            seq _ (uint32_or-Reads 4 _ _ (omega arith) v.requested_parallel_streams) (
              seq _ (string_or-Reads 4 _ _ (omega arith) v.username)
                (seq _ (uint8_or-Reads _ _ v.auth_method_id) (return-Reads _))))))))

pub payload-Yields : (m₀ : HandshakeRequest) → IsValid m₀ → Yields IsValid (read_payload m₀)
unfolding read_payload
payload-Yields m₀ v₀ = seq-Yields IsSized string-Yields λ client_version h0.
    seq-Yields IsSized bytes-Yields λ client_nonce h1.
      seq-Yields IsU8 (uint8_or-Yields _ v₀.security_level) λ security_level h2.
        seq-Yields IsU64 (if_remaining-Yields IsU64 8 _ _ uint64-Yields v₀.max_chunk_size)
          λ max_chunk_size h3.
            seq-Yields IsU64 (if_remaining-Yields IsU64 8 _ _ uint64-Yields v₀.file_size)
              λ file_size h4.
                seq-Yields IsU32 (if_remaining-Yields IsU32 4 _ _ uint32-Yields (omega arith))
                  λ requested_parallel_streams h5.
                    seq-Yields IsSized (if_remaining-Yields IsSized 4 _ _ string-Yields v₀.username)
                      λ username h6.
                        seq-Yields IsU8 (uint8_or-Yields _ (omega arith)) λ auth_method_id h7.
                          return-Yields IsValid _ (record {
                            client_version = h0;
                            client_nonce = h1;
                            security_level = h2;
                            max_chunk_size = h3;
                            file_size = h4;
                            requested_parallel_streams = h5;
                            username = h6;
                            auth_method_id = h7;
                          })

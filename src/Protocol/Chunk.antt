-- ===== src/Protocol/Chunk.antt =====
-- FileData::Chunk of include/protocol/message.h and src/protocol/message.cpp.
use net_copy.Common.{ℕ, List, [], ◌∷◌, Bool}
use net_copy.Protocol.Reader.{
  Reader, Reads, Yields, ◌>>=◌, return, concat, seq, return-Reads, seq-Yields, return-Yields,
}
use net_copy.Protocol.Wire.{
  IsU64, IsSized, write_bool, write_uint64, write_bytes, read_bool, read_uint64, read_bytes,
}
use net_copy.Protocol.Wire.Laws.{bool-Reads, uint64-Reads, bytes-Reads}
use net_copy.Protocol.Wire.Ranges.{Anything, bool-Yields, uint64-Yields, bytes-Yields}

pub record Chunk : Type 0 where
  pub offset : ℕ
  pub uncompressed_size : ℕ
  pub data_bytes : List ℕ
  pub is_last_chunk : Bool
  pub compressed : Bool

-- Every field is in the range of its C++ type.
pub record IsValid (m : Chunk) : Type 0 where
  pub offset : IsU64 m.offset
  pub uncompressed_size : IsU64 m.uncompressed_size
  pub data_bytes : IsSized m.data_bytes

unfoldable pub serialize_payload : Chunk → List ℕ
serialize_payload m = concat (
    write_uint64 m.offset
    ∷ write_uint64 m.uncompressed_size
    ∷ write_bytes m.data_bytes
    ∷ write_bool m.is_last_chunk
    ∷ write_bool m.compressed
    ∷ [])

unfoldable pub read_payload : Reader Chunk
read_payload = do
  offset ← read_uint64
  uncompressed_size ← read_uint64
  data_bytes ← read_bytes
  is_last_chunk ← read_bool "Buffer underflow reading last chunk flag"
  compressed ← read_bool "Buffer underflow reading compression flag"
  return (record {
    offset = offset;
    uncompressed_size = uncompressed_size;
    data_bytes = data_bytes;
    is_last_chunk = is_last_chunk;
    compressed = compressed;
  })

pub payload-Reads : (m : Chunk) → IsValid m → Reads read_payload (serialize_payload m) m
unfolding serialize_payload read_payload
payload-Reads m v = seq _ (uint64-Reads _ v.offset) (
    seq _ (uint64-Reads _ v.uncompressed_size) (
      seq _ (bytes-Reads _ v.data_bytes)
        (seq _ (bool-Reads _ _) (seq _ (bool-Reads _ _) (return-Reads _)))))

pub payload-Yields : Yields IsValid read_payload
unfolding read_payload
payload-Yields = seq-Yields IsU64 uint64-Yields λ offset h0.
    seq-Yields IsU64 uint64-Yields λ uncompressed_size h1.
      seq-Yields IsSized bytes-Yields λ data_bytes h2.
        seq-Yields Anything (bool-Yields _) λ is_last_chunk h3.
          seq-Yields Anything (bool-Yields _) λ compressed h4.
            return-Yields IsValid _
              (record { offset = h0; uncompressed_size = h1; data_bytes = h2 })

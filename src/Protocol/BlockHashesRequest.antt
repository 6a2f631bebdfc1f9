-- ===== src/Protocol/BlockHashesRequest.antt =====
-- BlockHashesRequest of include/protocol/message.h and src/protocol/message.cpp.
use net_copy.Common.{ℕ, List, [], ◌∷◌, arith}
use net_copy.Protocol.Reader.{
  Reader, Reads, Yields, ◌>>=◌, return, if_remaining, concat, seq, return-Reads, seq-Yields,
  return-Yields, if_remaining-Yields,
}
use net_copy.Protocol.Wire.{IsU64, IsSized, write_uint64, write_string, read_uint64, read_string}
use net_copy.Protocol.Wire.Laws.{string-Reads, uint64_or-Reads}
use net_copy.Protocol.Wire.Ranges.{uint64-Yields, string-Yields}

pub record BlockHashesRequest : Type 0 where
  pub file_path : List ℕ
  pub block_size : ℕ

-- Every field is in the range of its C++ type.
pub record IsValid (m : BlockHashesRequest) : Type 0 where
  pub file_path : IsSized m.file_path
  pub block_size : IsU64 m.block_size

unfoldable pub serialize_payload : BlockHashesRequest → List ℕ
serialize_payload m = concat (write_string m.file_path ∷ write_uint64 m.block_size ∷ [])

unfoldable pub read_payload : Reader BlockHashesRequest
read_payload = do
  file_path ← read_string
  block_size ← if_remaining 1 read_uint64 65536
  return (record { file_path = file_path; block_size = block_size })

pub payload-Reads :
    (m : BlockHashesRequest) → IsValid m → Reads read_payload (serialize_payload m) m
unfolding serialize_payload read_payload
payload-Reads m v =
    seq _ (string-Reads _ v.file_path)
      (seq _ (uint64_or-Reads 1 _ _ (omega arith) v.block_size) (return-Reads _))

pub payload-Yields : Yields IsValid read_payload
unfolding read_payload
payload-Yields = seq-Yields IsSized string-Yields λ file_path h0.
    seq-Yields IsU64 (if_remaining-Yields IsU64 1 _ _ uint64-Yields (omega arith))
      λ block_size h1. return-Yields IsValid _ (record { file_path = h0; block_size = h1 })

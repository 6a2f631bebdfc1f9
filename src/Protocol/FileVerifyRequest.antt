-- ===== src/Protocol/FileVerifyRequest.antt =====
-- FileVerifyRequest of include/protocol/message.h and src/protocol/message.cpp.
use net_copy.Common.{ℕ, List, [], ◌∷◌}
use net_copy.Protocol.Reader.{
  Reader, Reads, Yields, ◌>>=◌, return, concat, seq, return-Reads, seq-Yields, return-Yields,
}
use net_copy.Protocol.Wire.{IsSized, write_bytes, write_string, read_bytes, read_string}
use net_copy.Protocol.Wire.Laws.{bytes-Reads, string-Reads}
use net_copy.Protocol.Wire.Ranges.{bytes-Yields, string-Yields}

pub record FileVerifyRequest : Type 0 where
  pub file_path : List ℕ
  pub expected_hash : List ℕ

-- Every field is in the range of its C++ type.
pub record IsValid (m : FileVerifyRequest) : Type 0 where
  pub file_path : IsSized m.file_path
  pub expected_hash : IsSized m.expected_hash

unfoldable pub serialize_payload : FileVerifyRequest → List ℕ
serialize_payload m = concat (write_string m.file_path ∷ write_bytes m.expected_hash ∷ [])

unfoldable pub read_payload : Reader FileVerifyRequest
read_payload = do
  file_path ← read_string
  expected_hash ← read_bytes
  return (record { file_path = file_path; expected_hash = expected_hash })

pub payload-Reads : (m : FileVerifyRequest) → IsValid m → Reads read_payload (serialize_payload m) m
unfolding serialize_payload read_payload
payload-Reads m v =
    seq _ (string-Reads _ v.file_path) (seq _ (bytes-Reads _ v.expected_hash) (return-Reads _))

pub payload-Yields : Yields IsValid read_payload
unfolding read_payload
payload-Yields = seq-Yields IsSized string-Yields λ file_path h0.
    seq-Yields IsSized bytes-Yields
      λ expected_hash h1. return-Yields IsValid _ (record { file_path = h0; expected_hash = h1 })

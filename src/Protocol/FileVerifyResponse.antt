-- ===== src/Protocol/FileVerifyResponse.antt =====
-- FileVerifyResponse of include/protocol/message.h and src/protocol/message.cpp.
use net_copy.Common.{ℕ, List, [], ◌∷◌, Bool}
use net_copy.Protocol.Reader.{
  Reader, Reads, Yields, ◌>>=◌, return, concat, seq, return-Reads, seq-Yields, return-Yields,
}
use net_copy.Protocol.Wire.{
  IsSized, write_bool, write_bytes, write_string, read_bool, read_bytes, read_string,
}
use net_copy.Protocol.Wire.Laws.{bool-Reads, bytes-Reads, string-Reads}
use net_copy.Protocol.Wire.Ranges.{Anything, bool-Yields, bytes-Yields, string-Yields}

pub record FileVerifyResponse : Type 0 where
  pub success : Bool
  pub error_message : List ℕ
  pub actual_hash : List ℕ

-- Every field is in the range of its C++ type.
pub record IsValid (m : FileVerifyResponse) : Type 0 where
  pub error_message : IsSized m.error_message
  pub actual_hash : IsSized m.actual_hash

unfoldable pub serialize_payload : FileVerifyResponse → List ℕ
serialize_payload m =
    concat (write_bool m.success ∷ write_string m.error_message ∷ write_bytes m.actual_hash ∷ [])

unfoldable pub read_payload : Reader FileVerifyResponse
read_payload = do
  success ← read_bool "FileVerifyResponse: missing success byte"
  error_message ← read_string
  actual_hash ← read_bytes
  return (record { success = success; error_message = error_message; actual_hash = actual_hash })

pub payload-Reads :
    (m : FileVerifyResponse) → IsValid m → Reads read_payload (serialize_payload m) m
unfolding serialize_payload read_payload
payload-Reads m v =
    seq _ (bool-Reads _ _) (
      seq _ (string-Reads _ v.error_message) (seq _ (bytes-Reads _ v.actual_hash) (return-Reads _)))

pub payload-Yields : Yields IsValid read_payload
unfolding read_payload
payload-Yields = seq-Yields Anything (bool-Yields _) λ success h0.
    seq-Yields IsSized string-Yields λ error_message h1.
      seq-Yields IsSized bytes-Yields
        λ actual_hash h2. return-Yields IsValid _ (record { error_message = h1; actual_hash = h2 })

-- ===== src/Protocol/FileAck.antt =====
-- FileAck of include/protocol/message.h and src/protocol/message.cpp.
use net_copy.Common.{ℕ, List, [], ◌∷◌, Bool}
use net_copy.Protocol.Reader.{
  Reader, Reads, Yields, ◌>>=◌, return, concat, seq, return-Reads, seq-Yields, return-Yields,
}
use net_copy.Protocol.Wire.{
  IsU64, IsSized, write_bool, write_uint64, write_string, read_bool, read_uint64, read_string,
}
use net_copy.Protocol.Wire.Laws.{bool-Reads, uint64-Reads, string-Reads}
use net_copy.Protocol.Wire.Ranges.{Anything, bool-Yields, uint64-Yields, string-Yields}

pub record FileAck : Type 0 where
  pub bytes_received : ℕ
  pub success : Bool
  pub error_message : List ℕ

-- Every field is in the range of its C++ type.
pub record IsValid (m : FileAck) : Type 0 where
  pub bytes_received : IsU64 m.bytes_received
  pub error_message : IsSized m.error_message

unfoldable pub serialize_payload : FileAck → List ℕ
serialize_payload m =
    concat
      (write_uint64 m.bytes_received ∷ write_bool m.success ∷ write_string m.error_message ∷ [])

unfoldable pub read_payload : Reader FileAck
read_payload = do
  bytes_received ← read_uint64
  success ← read_bool "Buffer underflow reading success flag"
  error_message ← read_string
  return
      (record { bytes_received = bytes_received; success = success; error_message = error_message })

pub payload-Reads : (m : FileAck) → IsValid m → Reads read_payload (serialize_payload m) m
unfolding serialize_payload read_payload
payload-Reads m v =
    seq _ (uint64-Reads _ v.bytes_received)
      (seq _ (bool-Reads _ _) (seq _ (string-Reads _ v.error_message) (return-Reads _)))

pub payload-Yields : Yields IsValid read_payload
unfolding read_payload
payload-Yields = seq-Yields IsU64 uint64-Yields λ bytes_received h0.
    seq-Yields Anything (bool-Yields _) λ success h1.
      seq-Yields IsSized string-Yields λ error_message h2.
        return-Yields IsValid _ (record { bytes_received = h0; error_message = h2 })

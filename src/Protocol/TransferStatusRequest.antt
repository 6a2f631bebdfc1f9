-- ===== src/Protocol/TransferStatusRequest.antt =====
-- TransferStatusRequest of include/protocol/message.h and src/protocol/message.cpp.
use net_copy.Common.{ℕ, List, [], ◌∷◌}
use net_copy.Protocol.Reader.{
  Reader, Reads, Yields, ◌>>=◌, return, concat, seq, return-Reads, seq-Yields, return-Yields,
}
use net_copy.Protocol.Wire.{IsSized, write_string, read_string}
use net_copy.Protocol.Wire.Laws.{string-Reads}
use net_copy.Protocol.Wire.Ranges.{string-Yields}

pub record TransferStatusRequest : Type 0 where
  pub session_id : List ℕ

-- Every field is in the range of its C++ type.
pub record IsValid (m : TransferStatusRequest) : Type 0 where
  pub session_id : IsSized m.session_id

unfoldable pub serialize_payload : TransferStatusRequest → List ℕ
serialize_payload m = concat (write_string m.session_id ∷ [])

unfoldable pub read_payload : Reader TransferStatusRequest
read_payload = do session_id ← read_string; return (record { session_id = session_id })

pub payload-Reads :
    (m : TransferStatusRequest) → IsValid m → Reads read_payload (serialize_payload m) m
unfolding serialize_payload read_payload
payload-Reads m v = seq _ (string-Reads _ v.session_id) (return-Reads _)

pub payload-Yields : Yields IsValid read_payload
unfolding read_payload
payload-Yields =
    seq-Yields IsSized string-Yields
      λ session_id h0. return-Yields IsValid _ (record { session_id = h0 })

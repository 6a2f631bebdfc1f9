-- ===== src/Protocol/TransferStatusResponse.antt =====
-- TransferStatusResponse of include/protocol/message.h and src/protocol/message.cpp.
use net_copy.Common.{ℕ, List, [], ◌∷◌, Bool}
use net_copy.Protocol.Reader.{
  Reader, Reads, Yields, ◌>>=◌, return, concat, seq, return-Reads, seq-Yields, return-Yields,
}
use net_copy.Protocol.Wire.{
  IsU64, IsSized, write_bool, write_uint64, write_string, read_bool, read_uint64, read_string,
}
use net_copy.Protocol.Wire.Laws.{bool-Reads, uint64-Reads, string-Reads}
use net_copy.Protocol.Wire.Ranges.{Anything, bool-Yields, uint64-Yields, string-Yields}

pub record TransferStatusResponse : Type 0 where
  pub success : Bool
  pub error_message : List ℕ
  pub active : Bool
  pub bytes_transferred : ℕ
  pub total_bytes : ℕ
  pub status_string : List ℕ
  pub logs : List ℕ

-- Every field is in the range of its C++ type.
pub record IsValid (m : TransferStatusResponse) : Type 0 where
  pub error_message : IsSized m.error_message
  pub bytes_transferred : IsU64 m.bytes_transferred
  pub total_bytes : IsU64 m.total_bytes
  pub status_string : IsSized m.status_string
  pub logs : IsSized m.logs

unfoldable pub serialize_payload : TransferStatusResponse → List ℕ
serialize_payload m = concat (
    write_bool m.success
    ∷ write_string m.error_message
    ∷ write_bool m.active
    ∷ write_uint64 m.bytes_transferred
    ∷ write_uint64 m.total_bytes
    ∷ write_string m.status_string
    ∷ write_string m.logs
    ∷ [])

unfoldable pub read_payload : Reader TransferStatusResponse
read_payload = do
  success ← read_bool "TransferStatusResponse: missing success byte"
  error_message ← read_string
  active ← read_bool "TransferStatusResponse: missing active byte"
  bytes_transferred ← read_uint64
  total_bytes ← read_uint64
  status_string ← read_string
  logs ← read_string
  return (record {
    success = success;
    error_message = error_message;
    active = active;
    bytes_transferred = bytes_transferred;
    total_bytes = total_bytes;
    status_string = status_string;
    logs = logs;
  })

pub payload-Reads :
    (m : TransferStatusResponse) → IsValid m → Reads read_payload (serialize_payload m) m
unfolding serialize_payload read_payload
payload-Reads m v = seq _ (bool-Reads _ _) (
    seq _ (string-Reads _ v.error_message) (
      seq _ (bool-Reads _ _) (
        seq _ (uint64-Reads _ v.bytes_transferred) (
          seq _ (uint64-Reads _ v.total_bytes) (
            seq _ (string-Reads _ v.status_string)
              (seq _ (string-Reads _ v.logs) (return-Reads _)))))))

pub payload-Yields : Yields IsValid read_payload
unfolding read_payload
payload-Yields = seq-Yields Anything (bool-Yields _) λ success h0.
    seq-Yields IsSized string-Yields λ error_message h1.
      seq-Yields Anything (bool-Yields _) λ active h2.
        seq-Yields IsU64 uint64-Yields λ bytes_transferred h3.
          seq-Yields IsU64 uint64-Yields λ total_bytes h4.
            seq-Yields IsSized string-Yields λ status_string h5.
              seq-Yields IsSized string-Yields λ logs h6. return-Yields IsValid _ (record {
                error_message = h1;
                bytes_transferred = h3;
                total_bytes = h4;
                status_string = h5;
                logs = h6;
              })

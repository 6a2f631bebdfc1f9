-- ===== src/Protocol/FileResponse.antt =====
-- FileResponse of include/protocol/message.h and src/protocol/message.cpp.
use net_copy.Common.{ℕ, List, [], ◌∷◌, Bool, arith}
use net_copy.Protocol.Reader.{
  Reader, Reads, Yields, ◌>>=◌, return, if_remaining, concat, seq, return-Reads, seq-Yields,
  return-Yields, if_remaining-Yields,
}
use net_copy.Protocol.Wire.{
  IsU64, IsSized, write_bool, write_uint64, write_string, read_bool, read_uint64, read_string,
}
use net_copy.Protocol.Wire.Laws.{bool-Reads, uint64-Reads, string-Reads, string_or-Reads}
use net_copy.Protocol.Wire.Ranges.{Anything, bool-Yields, uint64-Yields, string-Yields}

pub record FileResponse : Type 0 where
  pub success : Bool
  pub error_message : List ℕ
  pub file_size : ℕ
  pub resume_offset : ℕ
  pub session_id : List ℕ

-- Every field is in the range of its C++ type.
pub record IsValid (m : FileResponse) : Type 0 where
  pub error_message : IsSized m.error_message
  pub file_size : IsU64 m.file_size
  pub resume_offset : IsU64 m.resume_offset
  pub session_id : IsSized m.session_id

unfoldable pub serialize_payload : FileResponse → List ℕ
serialize_payload m = concat (
    write_bool m.success
    ∷ write_string m.error_message
    ∷ write_uint64 m.file_size
    ∷ write_uint64 m.resume_offset
    ∷ write_string m.session_id
    ∷ [])

unfoldable pub read_payload : Reader FileResponse
read_payload = do
  success ← read_bool "Buffer underflow reading success flag"
  error_message ← read_string
  file_size ← read_uint64
  resume_offset ← read_uint64
  session_id ← if_remaining 1 read_string []
  return (record {
    success = success;
    error_message = error_message;
    file_size = file_size;
    resume_offset = resume_offset;
    session_id = session_id;
  })

pub payload-Reads : (m : FileResponse) → IsValid m → Reads read_payload (serialize_payload m) m
unfolding serialize_payload read_payload
payload-Reads m v = seq _ (bool-Reads _ _) (
    seq _ (string-Reads _ v.error_message) (
      seq _ (uint64-Reads _ v.file_size) (
        seq _ (uint64-Reads _ v.resume_offset)
          (seq _ (string_or-Reads 1 _ _ (omega arith) v.session_id) (return-Reads _)))))

pub payload-Yields : Yields IsValid read_payload
unfolding read_payload
payload-Yields = seq-Yields Anything (bool-Yields _) λ success h0.
    seq-Yields IsSized string-Yields λ error_message h1.
      seq-Yields IsU64 uint64-Yields λ file_size h2.
        seq-Yields IsU64 uint64-Yields λ resume_offset h3.
          seq-Yields IsSized (if_remaining-Yields IsSized 1 _ _ string-Yields (tt, omega arith))
            λ session_id h4.
              return-Yields IsValid _
                (record { error_message = h1; file_size = h2; resume_offset = h3; session_id = h4 })

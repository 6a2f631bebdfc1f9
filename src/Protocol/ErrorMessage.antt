-- ===== src/Protocol/ErrorMessage.antt =====
-- ErrorMessage of include/protocol/message.h and src/protocol/message.cpp.
use net_copy.Common.{ℕ, List, [], ◌∷◌}
use net_copy.Protocol.Reader.{
  Reader, Reads, Yields, ◌>>=◌, return, concat, seq, return-Reads, seq-Yields, return-Yields,
}
use net_copy.Protocol.Wire.{IsU32, IsSized, write_uint32, write_string, read_uint32, read_string}
use net_copy.Protocol.Wire.Laws.{uint32-Reads, string-Reads}
use net_copy.Protocol.Wire.Ranges.{uint32-Yields, string-Yields}

pub record ErrorMessage : Type 0 where
  pub error_code : ℕ
  pub error_description : List ℕ

-- Every field is in the range of its C++ type.
pub record IsValid (m : ErrorMessage) : Type 0 where
  pub error_code : IsU32 m.error_code
  pub error_description : IsSized m.error_description

unfoldable pub serialize_payload : ErrorMessage → List ℕ
serialize_payload m = concat (write_uint32 m.error_code ∷ write_string m.error_description ∷ [])

unfoldable pub read_payload : Reader ErrorMessage
read_payload = do
  error_code ← read_uint32
  error_description ← read_string
  return (record { error_code = error_code; error_description = error_description })

pub payload-Reads : (m : ErrorMessage) → IsValid m → Reads read_payload (serialize_payload m) m
unfolding serialize_payload read_payload
payload-Reads m v =
    seq _ (uint32-Reads _ v.error_code)
      (seq _ (string-Reads _ v.error_description) (return-Reads _))

pub payload-Yields : Yields IsValid read_payload
unfolding read_payload
payload-Yields = seq-Yields IsU32 uint32-Yields λ error_code h0.
    seq-Yields IsSized string-Yields λ error_description h1.
      return-Yields IsValid _ (record { error_code = h0; error_description = h1 })

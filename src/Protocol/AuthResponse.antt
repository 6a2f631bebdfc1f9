-- ===== src/Protocol/AuthResponse.antt =====
-- AuthResponse of include/protocol/message.h and src/protocol/message.cpp.
use net_copy.Common.{ℕ, List, [], ◌∷◌}
use net_copy.Protocol.Reader.{
  Reader, Reads, Yields, ◌>>=◌, return, concat, seq, return-Reads, seq-Yields, return-Yields,
}
use net_copy.Protocol.Wire.{IsSized, write_bytes, read_bytes}
use net_copy.Protocol.Wire.Laws.{bytes-Reads}
use net_copy.Protocol.Wire.Ranges.{bytes-Yields}

pub record AuthResponse : Type 0 where
  pub proof : List ℕ

-- Every field is in the range of its C++ type.
pub record IsValid (m : AuthResponse) : Type 0 where
  pub proof : IsSized m.proof

unfoldable pub serialize_payload : AuthResponse → List ℕ
serialize_payload m = concat (write_bytes m.proof ∷ [])

unfoldable pub read_payload : Reader AuthResponse
read_payload = do proof ← read_bytes; return (record { proof = proof })

pub payload-Reads : (m : AuthResponse) → IsValid m → Reads read_payload (serialize_payload m) m
unfolding serialize_payload read_payload
payload-Reads m v = seq _ (bytes-Reads _ v.proof) (return-Reads _)

pub payload-Yields : Yields IsValid read_payload
unfolding read_payload
payload-Yields =
    seq-Yields IsSized bytes-Yields λ proof h0. return-Yields IsValid _ (record { proof = h0 })

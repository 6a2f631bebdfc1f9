-- ===== src/Protocol/DownloadRequest.antt =====
-- DownloadRequest of include/protocol/message.h and src/protocol/message.cpp.
use net_copy.Common.{ℕ, List, [], ◌∷◌, arith}
use net_copy.Protocol.Reader.{
  Reader, Reads, Yields, ◌>>=◌, return, if_remaining, concat, seq, return-Reads, seq-Yields,
  return-Yields, if_remaining-Yields,
}
use net_copy.Protocol.Wire.{IsU64, IsSized, write_uint64, write_string, read_uint64, read_string}
use net_copy.Protocol.Wire.Laws.{string-Reads, uint64_or-Reads}
use net_copy.Protocol.Wire.Ranges.{uint64-Yields, string-Yields}

pub record DownloadRequest : Type 0 where
  pub remote_path : List ℕ
  pub resume_offset : ℕ

-- Every field is in the range of its C++ type.
pub record IsValid (m : DownloadRequest) : Type 0 where
  pub remote_path : IsSized m.remote_path
  pub resume_offset : IsU64 m.resume_offset

unfoldable pub serialize_payload : DownloadRequest → List ℕ
serialize_payload m = concat (write_string m.remote_path ∷ write_uint64 m.resume_offset ∷ [])

unfoldable pub read_payload : Reader DownloadRequest
read_payload = do
  remote_path ← read_string
  resume_offset ← if_remaining 8 read_uint64 0
  return (record { remote_path = remote_path; resume_offset = resume_offset })

pub payload-Reads : (m : DownloadRequest) → IsValid m → Reads read_payload (serialize_payload m) m
unfolding serialize_payload read_payload
payload-Reads m v =
    seq _ (string-Reads _ v.remote_path)
      (seq _ (uint64_or-Reads 8 _ _ (omega arith) v.resume_offset) (return-Reads _))

pub payload-Yields : Yields IsValid read_payload
unfolding read_payload
payload-Yields = seq-Yields IsSized string-Yields λ remote_path h0.
    seq-Yields IsU64 (if_remaining-Yields IsU64 8 _ _ uint64-Yields (omega arith))
      λ resume_offset h1. return-Yields IsValid _ (record { remote_path = h0; resume_offset = h1 })

-- ===== src/Protocol/ListRequest.antt =====
-- ListRequest of include/protocol/message.h and src/protocol/message.cpp.
use net_copy.Common.{ℕ, List, [], ◌∷◌, Bool}
use net_copy.Protocol.Reader.{
  Reader, Reads, Yields, ◌>>=◌, return, concat, seq, return-Reads, seq-Yields, return-Yields,
}
use net_copy.Protocol.Wire.{IsSized, write_bool, write_string, read_bool, read_string}
use net_copy.Protocol.Wire.Laws.{bool-Reads, string-Reads}
use net_copy.Protocol.Wire.Ranges.{Anything, bool-Yields, string-Yields}

pub record ListRequest : Type 0 where
  pub remote_path : List ℕ
  pub recursive : Bool

-- Every field is in the range of its C++ type.
pub record IsValid (m : ListRequest) : Type 0 where
  pub remote_path : IsSized m.remote_path

unfoldable pub serialize_payload : ListRequest → List ℕ
serialize_payload m = concat (write_string m.remote_path ∷ write_bool m.recursive ∷ [])

unfoldable pub read_payload : Reader ListRequest
read_payload = do
  remote_path ← read_string
  recursive ← read_bool "ListRequest: missing recursive byte"
  return (record { remote_path = remote_path; recursive = recursive })

pub payload-Reads : (m : ListRequest) → IsValid m → Reads read_payload (serialize_payload m) m
unfolding serialize_payload read_payload
payload-Reads m v = seq _ (string-Reads _ v.remote_path) (seq _ (bool-Reads _ _) (return-Reads _))

pub payload-Yields : Yields IsValid read_payload
unfolding read_payload
payload-Yields = seq-Yields IsSized string-Yields λ remote_path h0.
    seq-Yields Anything (bool-Yields _)
      λ recursive h1. return-Yields IsValid _ (record { remote_path = h0 })

-- ===== src/Protocol/ListResponse.antt =====
-- ListResponse of include/protocol/message.h and src/protocol/message.cpp.
use net_copy.Common.{All, ◌%◌, ℕ, ◌^◌, List, [], ◌∷◌, Bool, length}
use net_copy.Protocol.Reader.{
  Reader, Reads, Yields, ◌>>=◌, return, concat, seq, return-Reads, seq-Yields, return-Yields,
}
use net_copy.Protocol.Wire.{
  IsU32, IsSized, write_bool, write_uint32, write_string, read_bool, read_uint32, read_string,
}
use net_copy.Protocol.Wire.Laws.{bool-Reads, uint32-Reads, string-Reads}
use net_copy.Protocol.Wire.Ranges.{Anything, bool-Yields, uint32-Yields, string-Yields}
use net_copy.Protocol.Wire.Sequence.{write_list, read_list, list-Reads, list-Yields}
use native.Mathlib.Nat.{mod-eq_of_lt}
use net_copy.Protocol.RemoteFileInfo
use net_copy.Protocol.RemoteFileInfo.{
  RemoteFileInfo, write_entry, read_entry, entry-Reads, entry-Yields,
}

pub record ListResponse : Type 0 where
  pub success : Bool
  pub error_message : List ℕ
  pub entries : List RemoteFileInfo

-- Every field is in the range of its C++ type, and the number of entries fits 32 bits.
pub record IsValid (m : ListResponse) : Type 0 where
  pub error_message : IsSized m.error_message
  pub count : IsU32 (length m.entries)
  pub entries : All RemoteFileInfo.IsValid m.entries

unfoldable pub serialize_payload : ListResponse → List ℕ
serialize_payload m = concat (
    write_bool m.success
    ∷ write_string m.error_message
    ∷ write_uint32 (length m.entries % 2 ^ 32)
    ∷ write_list write_entry m.entries
    ∷ [])

unfoldable pub read_payload : Reader ListResponse
read_payload = do
  success ← read_bool "ListResponse: missing success byte"
  error_message ← read_string
  size ← read_uint32
  entries ← read_list size read_entry
  return (record { success = success; error_message = error_message; entries = entries })

pub payload-Reads : (m : ListResponse) → IsValid m → Reads read_payload (serialize_payload m) m
unfolding serialize_payload read_payload
payload-Reads m v = rw (mod-eq_of_lt v.count) (
    seq _ (bool-Reads _ _) (
      seq _ (string-Reads _ v.error_message) (
        seq _ (uint32-Reads _ v.count) (
          seq _ (list-Reads RemoteFileInfo.IsValid _ write_entry entry-Reads m.entries v.entries)
            (return-Reads _)))))

pub payload-Yields : Yields IsValid read_payload
unfolding read_payload
payload-Yields = seq-Yields Anything (bool-Yields _) λ success h0.
    seq-Yields IsSized string-Yields λ error_message h1. seq-Yields IsU32 uint32-Yields λ size h2.
      seq-Yields _ (list-Yields RemoteFileInfo.IsValid _ entry-Yields size) λ entries h3.
        return-Yields IsValid _ (record { error_message = h1; count = rw h3.1 h2; entries = h3.0 })

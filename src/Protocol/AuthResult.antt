-- ===== src/Protocol/AuthResult.antt =====
-- AuthResult of include/protocol/message.h and src/protocol/message.cpp.
use net_copy.Common.{ℕ, List, [], ◌∷◌, Bool, false, arith}
use net_copy.Protocol.Reader.{
  Reader, Reads, Yields, ◌>>=◌, return, if_remaining, concat, seq, return-Reads, seq-Yields,
  return-Yields, if_remaining-Yields,
}
use net_copy.Protocol.Wire.{IsSized, write_bool, write_string, read_bool, read_string}
use net_copy.Protocol.Wire.Laws.{bool-Reads, string_or-Reads}
use net_copy.Protocol.Wire.Ranges.{Anything, bool-Yields, string-Yields}

pub record AuthResult : Type 0 where
  pub success : Bool
  pub error_message : List ℕ

-- A fresh object. The fields that the constructor leaves unset are read on every path.
abbrev pub init : AuthResult
init = record { success = false; error_message = [] }

-- Every field is in the range of its C++ type.
pub record IsValid (m : AuthResult) : Type 0 where
  pub error_message : IsSized m.error_message

unfoldable pub serialize_payload : AuthResult → List ℕ
serialize_payload m = concat (write_bool m.success ∷ write_string m.error_message ∷ [])

-- `m` is the object that is read into: what the buffer lacks keeps its value.
unfoldable pub read_payload : AuthResult → Reader AuthResult
read_payload m = do
  success ← read_bool "AuthResult: missing success byte"
  error_message ← if_remaining 1 read_string m.error_message
  return (record { success = success; error_message = error_message })

pub payload-Reads :
    (m₀ : AuthResult) (m : AuthResult) → IsValid m → Reads (read_payload m₀) (serialize_payload m) m
unfolding serialize_payload read_payload
payload-Reads m₀ m v =
    seq _ (bool-Reads _ _)
      (seq _ (string_or-Reads 1 _ _ (omega arith) v.error_message) (return-Reads _))

pub payload-Yields : (m₀ : AuthResult) → IsValid m₀ → Yields IsValid (read_payload m₀)
unfolding read_payload
payload-Yields m₀ v₀ = seq-Yields Anything (bool-Yields _) λ success h0.
    seq-Yields IsSized (if_remaining-Yields IsSized 1 _ _ string-Yields v₀.error_message)
      λ error_message h1. return-Yields IsValid _ (record { error_message = h1 })

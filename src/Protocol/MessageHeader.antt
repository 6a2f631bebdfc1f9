-- ===== src/Protocol/MessageHeader.antt =====
-- MessageType and MessageHeader of include/protocol/message.h and src/protocol/message.cpp.
use net_copy.Common.{
  ℕ, List, [], ◌∷◌, ◌++◌, length, ltb, if◌then◌else◌, Result, throw, protocol_exception, ◌≡◌, arith,
  ok, All, length-append, Bool-cases, inl, inr,
}
use net_copy.Protocol.Reader.{
  Reader, ◌>>=◌, return, run, concat, Reads, Yields, seq, return-Reads, seq-Yields, return-Yields,
  run-Reads, run-Yields,
}
use net_copy.Common.{IsByte}
use net_copy.Protocol.Wire.{IsU32, write_uint32, read_uint32}
use net_copy.Protocol.Wire.Laws.{uint32-Reads}
use net_copy.Protocol.Wire.Ranges.{uint32-Yields}

-- A MessageType is its number: the cast in `deserialize` takes any 32 bits.
pub record MessageHeader : Type 0 where
  pub message_type : ℕ
  pub payload_length : ℕ
  pub sequence_number : ℕ
  pub reserved : ℕ

pub record IsValid (h : MessageHeader) : Type 0 where
  pub message_type : IsU32 h.message_type
  pub payload_length : IsU32 h.payload_length
  pub sequence_number : IsU32 h.sequence_number
  pub reserved : IsU32 h.reserved

-- MessageHeader::SIZE
abbrev pub header_size : ℕ
header_size = 16

unfoldable pub serialize : MessageHeader → List ℕ
serialize h = concat (
    write_uint32 h.message_type
    ∷ write_uint32 h.payload_length
    ∷ write_uint32 h.sequence_number
    ∷ write_uint32 h.reserved
    ∷ [])

unfoldable pub read_header : Reader MessageHeader
read_header = do
  message_type ← read_uint32
  payload_length ← read_uint32
  sequence_number ← read_uint32
  reserved ← read_uint32
  return (record {
    message_type = message_type;
    payload_length = payload_length;
    sequence_number = sequence_number;
    reserved = reserved;
  })

unfoldable pub deserialize : List ℕ → Result MessageHeader
unfolding run read_header
deserialize bytes =
    if ltb (length bytes) header_size
    then throw (protocol_exception "Invalid header size")
    else run read_header bytes

header-Reads : (h : MessageHeader) → IsValid h → Reads read_header (serialize h) h
unfolding serialize read_header
header-Reads h v = seq _ (uint32-Reads _ v.message_type) (
    seq _ (uint32-Reads _ v.payload_length) (
      seq _ (uint32-Reads _ v.sequence_number)
        (seq _ (uint32-Reads _ v.reserved) (return-Reads _))))

header-Yields : Yields IsValid read_header
unfolding read_header
header-Yields = seq-Yields IsU32 uint32-Yields λ message_type h0.
    seq-Yields IsU32 uint32-Yields λ payload_length h1.
      seq-Yields IsU32 uint32-Yields λ sequence_number h2.
        seq-Yields IsU32 uint32-Yields λ reserved h3.
          return-Yields IsValid _
            (record { message_type = h0; payload_length = h1; sequence_number = h2; reserved = h3 })

pub length-serialize : (h : MessageHeader) → length (serialize h) ≡ header_size
unfolding serialize write_uint32
length-serialize h = omega arith

pub deserialize-serialize :
    (h : MessageHeader) (rest : List ℕ) → IsValid h → deserialize (serialize h ++ rest) ≡ ok h
unfolding deserialize
deserialize-serialize h rest v = ground (
  arith,
  run-Reads read_header (serialize h) rest h (header-Reads h v),
  length-append (serialize h) rest,
  length-serialize h,
)

pub deserialize-IsValid :
    (bytes : List ℕ) (h : MessageHeader) → All IsByte bytes → deserialize bytes ≡ ok h → IsValid h
unfolding deserialize
deserialize-IsValid bytes h hb e = elim (Bool-cases (ltb (length bytes) header_size)) [
  | inl t ↦ absurd (cc (rw t at e))
  | inr t ↦ run-Yields IsValid read_header bytes h header-Yields hb (rw t at e)
]

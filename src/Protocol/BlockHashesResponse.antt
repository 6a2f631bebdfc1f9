-- ===== src/Protocol/BlockHashesResponse.antt =====
-- BlockHashesResponse of include/protocol/message.h and src/protocol/message.cpp.
use net_copy.Common.{All, length-append, ◌≤◌, ◌%◌, ℕ, ◌^◌, List, [], ◌∷◌, ◌++◌, Bool, arith, length}
use net_copy.Protocol.Reader.{
  Reader, Reads, Yields, ◌>>=◌, return, if_remaining, if_remaining-Reads, concat, seq, return-Reads,
  seq-Yields, return-Yields, seq_last, if_remaining-Yields,
}
use net_copy.Protocol.Wire.{
  IsU32, IsU64, IsSized, write_bool, write_uint32, write_uint64, write_string, read_bool,
  read_uint32, read_uint64, read_string,
}
use net_copy.Protocol.Wire.Laws.{
  bool-Reads, uint32-Reads, uint64-Reads, string-Reads, length-write_uint64,
}
use net_copy.Protocol.Wire.Ranges.{
  Anything, bool-Yields, uint32-Yields, uint64-Yields, string-Yields,
}
use net_copy.Protocol.Wire.Sequence.{write_list, read_list, list-Reads, list-Yields}
use native.Mathlib.Nat.{mod-eq_of_lt}
use net_copy.Protocol.BlockHashInfo
use net_copy.Protocol.BlockHashInfo.{
  BlockHashInfo, write_block, read_block, block-Reads, block-Yields,
}

pub record BlockHashesResponse : Type 0 where
  pub success : Bool
  pub error_message : List ℕ
  pub block_size : ℕ
  pub blocks : List BlockHashInfo

-- Every field is in the range of its C++ type, and the number of blocks fits 32 bits.
pub record IsValid (m : BlockHashesResponse) : Type 0 where
  pub error_message : IsSized m.error_message
  pub block_size : IsU64 m.block_size
  pub count : IsU32 (length m.blocks)
  pub blocks : All BlockHashInfo.IsValid m.blocks

unfoldable pub serialize_payload : BlockHashesResponse → List ℕ
serialize_payload m = concat (
    write_bool m.success
    ∷ write_string m.error_message
    ∷ (write_uint64 m.block_size
        ++ (write_uint32 (length m.blocks % 2 ^ 32) ++ write_list write_block m.blocks))
    ∷ [])

-- The part that is read if anything follows the error message.
pub record Hashes : Type 0 where
  pub block_size : ℕ
  pub blocks : List BlockHashInfo

unfoldable pub read_hashes : Reader Hashes
read_hashes = do
  block_size ← read_uint64
  size ← read_uint32
  blocks ← read_list size read_block
  return (record { block_size = block_size; blocks = blocks })

unfoldable pub read_payload : Reader BlockHashesResponse
unfolding read_hashes
read_payload = do
  success ← read_bool "BlockHashesResponse: missing success byte"
  error_message ← read_string
  hashes ← if_remaining 1 read_hashes (record { block_size = 65536; blocks = [] })
  return (record {
    success = success;
    error_message = error_message;
    block_size = hashes.block_size;
    blocks = hashes.blocks;
  })

hashes-Reads :
    (m : BlockHashesResponse)
    → IsValid m
    → Reads read_hashes
        (write_uint64 m.block_size
          ++ (write_uint32 (length m.blocks % 2 ^ 32) ++ write_list write_block m.blocks))
        (record { block_size = m.block_size; blocks = m.blocks })
unfolding read_hashes
hashes-Reads m v = rw (mod-eq_of_lt v.count) (
    seq _ (uint64-Reads _ v.block_size) (
      seq _ (uint32-Reads _ v.count) (
        seq_last _ (list-Reads BlockHashInfo.IsValid _ write_block block-Reads m.blocks v.blocks))))

pub payload-Reads :
    (m : BlockHashesResponse) → IsValid m → Reads read_payload (serialize_payload m) m
unfolding serialize_payload read_payload
payload-Reads m v = seq _ (bool-Reads _ _) (
    seq _ (string-Reads _ v.error_message)
      (seq _ (if_remaining-Reads 1 _ _ _ _ nonempty (hashes-Reads m v)) (return-Reads _)))
  where
    nonempty :
        1
        ≤ length (
            write_uint64 m.block_size
            ++ (write_uint32 (length m.blocks % 2 ^ 32) ++ write_list write_block m.blocks))
    nonempty = omega (
      arith,
      length-write_uint64 m.block_size,
      length-append (write_uint64 m.block_size)
          (write_uint32 (length m.blocks % 2 ^ 32) ++ write_list write_block m.blocks),
    )

-- The hashes of a valid message.
pub record AreValid (h : Hashes) : Type 0 where
  pub block_size : IsU64 h.block_size
  pub count : IsU32 (length h.blocks)
  pub blocks : All BlockHashInfo.IsValid h.blocks

hashes-Yields : Yields AreValid read_hashes
unfolding read_hashes
hashes-Yields = seq-Yields IsU64 uint64-Yields λ block_size h0.
    seq-Yields IsU32 uint32-Yields λ size h1.
      seq-Yields _ (list-Yields BlockHashInfo.IsValid _ block-Yields size) λ blocks h2.
        return-Yields AreValid _ (record { block_size = h0; count = rw h2.1 h1; blocks = h2.0 })

pub payload-Yields : Yields IsValid read_payload
unfolding read_payload
payload-Yields = seq-Yields Anything (bool-Yields _) λ success h0.
    seq-Yields IsSized string-Yields λ error_message h1.
      seq-Yields AreValid
        (if_remaining-Yields AreValid 1 _ _ hashes-Yields
          (record { block_size = omega arith; count = omega arith; blocks = tt }))
        λ hashes h2. return-Yields IsValid _ (record {
          error_message = h1;
          block_size = h2.block_size;
          count = h2.count;
          blocks = h2.blocks;
        })

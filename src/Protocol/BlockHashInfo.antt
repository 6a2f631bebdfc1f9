-- ===== src/Protocol/BlockHashInfo.antt =====
-- BlockHashInfo of include/protocol/message.h, with the bodies of the loops over `blocks` in
-- src/protocol/message.cpp.
use net_copy.Common.{ℕ, List, [], ◌∷◌}
use net_copy.Protocol.Reader.{
  Reader, Reads, Yields, ◌>>=◌, return, concat, seq, return-Reads, seq-Yields, return-Yields,
}
use net_copy.Protocol.Wire.{IsU64, IsSized, write_uint64, write_bytes, read_uint64, read_bytes}
use net_copy.Protocol.Wire.Laws.{uint64-Reads, bytes-Reads}
use net_copy.Protocol.Wire.Ranges.{uint64-Yields, bytes-Yields}

pub record BlockHashInfo : Type 0 where
  pub offset : ℕ
  pub hash : List ℕ

-- Every field is in the range of its C++ type.
pub record IsValid (m : BlockHashInfo) : Type 0 where
  pub offset : IsU64 m.offset
  pub hash : IsSized m.hash

unfoldable pub write_block : BlockHashInfo → List ℕ
write_block m = concat (write_uint64 m.offset ∷ write_bytes m.hash ∷ [])

unfoldable pub read_block : Reader BlockHashInfo
read_block = do
  offset ← read_uint64
  hash ← read_bytes
  return (record { offset = offset; hash = hash })

pub block-Reads : (m : BlockHashInfo) → IsValid m → Reads read_block (write_block m) m
unfolding write_block read_block
block-Reads m v = seq _ (uint64-Reads _ v.offset) (seq _ (bytes-Reads _ v.hash) (return-Reads _))

pub block-Yields : Yields IsValid read_block
unfolding read_block
block-Yields = seq-Yields IsU64 uint64-Yields λ offset h0.
    seq-Yields IsSized bytes-Yields
      λ hash h1. return-Yields IsValid _ (record { offset = h0; hash = h1 })

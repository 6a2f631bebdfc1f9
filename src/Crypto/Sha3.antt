-- ===== src/Crypto/Sha3.antt =====
-- SHA3-256 of src/crypto/sha3.cpp, at once (`sha3_256`) and in pieces (`Sha3Hasher`).
pub mod Blocks
pub mod Streaming
pub mod Digest
use net_copy.Common.{
  ℕ, zero, suc, ◌+◌, ◌*◌, ◌-◌, ◌/◌, ◌%◌, ◌^◌, bit_and, bit_or, bit_xor, List, [], ◌∷◌, ◌++◌, length,
  take, drop, get_or, set, replicate, leb, ltb, ◌==◌, min, if◌then◌else◌,
}
use net_copy.Crypto.Keccak.{keccak_f1600}

-- `SHA3_256_RATE`
abbrev pub rate : ℕ
rate = 136

-- The eight bytes of a lane, the lowest first.
lane_at : List ℕ → ℕ → ℕ
lane_at bytes zero = 0
lane_at bytes (suc n) = bit_or (lane_at bytes n) (get_or bytes n 0 * 2 ^ (8 * n))

-- The first `n` lanes, each combined with eight bytes of the block.
xor_lanes : ℕ → List ℕ → List ℕ → List ℕ
unfolding lane_at
xor_lanes zero block s = s
xor_lanes (suc n) block [] = []
xor_lanes (suc n) block (lane ∷ lanes) =
    bit_xor lane (lane_at block 8) ∷ xor_lanes n (drop 8 block) lanes

-- One block of `rate` bytes.
unfoldable pub absorb : List ℕ → List ℕ → List ℕ
unfolding xor_lanes
absorb s block = keccak_f1600 (xor_lanes 17 block s)

-- The loop over full blocks: the state, and the bytes that are left. Each round takes `rate` bytes,
-- so a fuel of the number of bytes is enough.
unfoldable pub absorb_blocks : ℕ → List ℕ → List ℕ → List ℕ × List ℕ
absorb_blocks zero s bytes = (s, bytes)
absorb_blocks (suc fuel) s bytes =
    let more = absorb_blocks fuel (absorb s (take rate bytes)) (drop rate bytes) in
    if leb rate (length bytes) then more else (s, bytes)

-- `last_block`: the bytes that are left, the separator, and the trailing bit.
unfoldable pub pad : List ℕ → List ℕ
pad rest =
    let block = rest ++ (0x06 ∷ replicate (rate - 1 - length rest) 0) in
    set block (rate - 1) (bit_or (get_or block (rate - 1) 0) 0x80)

lane_bytes : ℕ → ℕ → ℕ → List ℕ
lane_bytes zero b lane = []
lane_bytes (suc n) b lane = bit_and (lane / 2 ^ (8 * b)) 0xFF ∷ lane_bytes n (b + 1) lane

squeeze_lanes : ℕ → List ℕ → List ℕ
unfolding lane_bytes
squeeze_lanes zero s = []
squeeze_lanes (suc n) [] = []
squeeze_lanes (suc n) (lane ∷ lanes) = lane_bytes 8 0 lane ++ squeeze_lanes n lanes

-- The 32 bytes of the digest.
unfoldable pub squeeze : List ℕ → List ℕ
unfolding squeeze_lanes
squeeze s = squeeze_lanes 4 s

-- The last block and the digest.
unfoldable pub finish : List ℕ → List ℕ → List ℕ
finish s rest = squeeze (absorb s (pad rest))

abbrev pub zero_state : List ℕ
zero_state = replicate 25 0

-- `keccak_sha3_256`, which `sha3_256` calls.
unfoldable pub sha3_256 : List ℕ → List ℕ
sha3_256 bytes = let (s, rest) = absorb_blocks (length bytes) zero_state bytes in finish s rest

-- `Sha3Hasher`: the state, and the first `buffer_len_` bytes of the buffer.
pub record Sha3Hasher : Type 0 where
  pub state : List ℕ
  pub buffer : List ℕ

abbrev pub new_hasher : Sha3Hasher
new_hasher = record { state = zero_state; buffer = [] }

-- The first part of `update`: bytes that go into a buffer that has some, and the rest.
unfoldable pub fill : Sha3Hasher → List ℕ → Sha3Hasher × List ℕ
fill h bytes =
    let to_copy = min (length bytes) (rate - length h.buffer) in
    let buffer = h.buffer ++ take to_copy bytes in
    if ltb 0 (length h.buffer)
    then (
      (if length buffer == rate
          then record { state = absorb h.state buffer; buffer = [] }
          else record { state = h.state; buffer = buffer }),
      drop to_copy bytes,
    )
    else (h, bytes)

-- `update`
unfoldable pub update : Sha3Hasher → List ℕ → Sha3Hasher
update h bytes =
    let (filled, rest) = fill h bytes in
    let (s, left) = absorb_blocks (length rest) filled.state rest in
    record { state = s; buffer = filled.buffer ++ left }

-- `finalize`
unfoldable pub finalize : Sha3Hasher → List ℕ
finalize h = finish h.state h.buffer

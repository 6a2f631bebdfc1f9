-- ===== src/Crypto/Stream.antt =====
-- The loop that src/crypto/xor_cipher.cpp (`process`) and src/crypto/chacha20_poly1305.cpp
-- (`ChaCha20::encrypt`) share: blocks of `size` bytes, each combined with the bytes of a keystream,
-- and a new key state for each next block.
pub mod Laws
use net_copy.Common.{
  ℕ, zero, suc, ◌+◌, List, [], ◌∷◌, ◌++◌, length, take, drop, leb, bit_xor, if◌then◌else◌,
}

module _ {ℓ} {S : Type ℓ} (size : ℕ) (keystream : S → ℕ → ℕ) (next : S → S) where
  -- One block, from its byte `i` on.
  unfoldable pub xor_from : S → ℕ → List ℕ → List ℕ
  xor_from s i [] = []
  xor_from s i (b ∷ bs) = bit_xor b (keystream s i) ∷ xor_from s (i + 1) bs

  -- The output and the last key state. Each round but the last takes `size` bytes, so a fuel of the
  -- number of bytes is enough.
  unfoldable pub xor_blocks : ℕ → S → List ℕ → List ℕ × S
  xor_blocks zero s bytes = (bytes, s)
  xor_blocks (suc fuel) s bytes =
      let first = xor_from s 0 (take size bytes) in
      let more = xor_blocks fuel (next s) (drop size bytes) in
      if leb (length bytes) size then (first, s) else (first ++ more.0, more.1)

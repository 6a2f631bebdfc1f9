-- ===== src/Crypto/Pbkdf2.antt =====
-- `hmac_sha3_256` and `pbkdf2_sha3_256` of src/crypto/sha3.cpp.
pub mod Bytes
use net_copy.Common.{
  ℕ, zero, suc, ◌+◌, ◌-◌, ◌/◌, ◌%◌, ◌^◌, bit_and, bit_xor, List, [], ◌∷◌, ◌++◌, map, length, take,
  replicate, ltb, if◌then◌else◌,
}
use net_copy.Crypto.Sha3.{rate, sha3_256}

hmac_key : List ℕ → List ℕ
hmac_key key =
    let k = if ltb rate (length key) then sha3_256 key else key in
    k ++ replicate (rate - length k) 0

unfoldable pub hmac_sha3_256 : List ℕ → List ℕ → List ℕ
unfolding hmac_key
hmac_sha3_256 key bytes =
    let inner = sha3_256 (map (λ b. bit_xor b 0x36) (hmac_key key) ++ bytes) in
    sha3_256 (map (λ b. bit_xor b 0x5C) (hmac_key key) ++ inner)

-- `T[i] ^= U[i]`
unfoldable pub xor_rows : List ℕ → List ℕ → List ℕ
xor_rows [] us = []
xor_rows (t ∷ ts) [] = t ∷ ts
xor_rows (t ∷ ts) (u ∷ us) = bit_xor t u ∷ xor_rows ts us

-- The iterations after the first, with `n` to go.
unfoldable pub iterate : List ℕ → ℕ → List ℕ → List ℕ → List ℕ
iterate key zero u t = t
iterate key (suc n) u t = let next = hmac_sha3_256 key u in iterate key n next (xor_rows t next)

-- One block of 32 bytes.
unfoldable pub pbkdf2_block : List ℕ → List ℕ → ℕ → ℕ → List ℕ
pbkdf2_block key salt iterations index =
    let byte = λ (i : ℕ). bit_and (index / 2 ^ i) 0xFF in
    let u = hmac_sha3_256 key (salt ++ (byte 24 ∷ byte 16 ∷ byte 8 ∷ byte 0 ∷ [])) in
    iterate key (iterations - 1) u u

-- The blocks from `index` on, with `n` to go.
unfoldable pub pbkdf2_blocks : ℕ → List ℕ → List ℕ → ℕ → ℕ → List ℕ
pbkdf2_blocks zero key salt iterations index = []
pbkdf2_blocks (suc n) key salt iterations index =
    pbkdf2_block key salt iterations index ++ pbkdf2_blocks n key salt iterations (index + 1)

-- An `iterations` below 1 counts as 1, as the loop in the code has it.
unfoldable pub pbkdf2_sha3_256 : List ℕ → List ℕ → ℕ → ℕ → List ℕ
pbkdf2_sha3_256 password salt iterations output_len =
    take output_len (pbkdf2_blocks ((output_len + 31) / 32 % 2 ^ 32) password salt iterations 1)

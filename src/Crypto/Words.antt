-- ===== src/Crypto/Words.antt =====
-- 32-bit words and their little-endian bytes, as src/crypto/chacha20_poly1305.cpp computes them.
use net_copy.Common.{ℕ, ◌+◌, ◌*◌, ◌/◌, ◌%◌, ◌^◌, ◌-◌, bit_and, bit_or, List, [], ◌∷◌, ◌++◌, get_or}

unfoldable pub add32 : ℕ → ℕ → ℕ
add32 a b = (a + b) % 2 ^ 32

-- `rotl`
unfoldable pub rotl : ℕ → ℕ → ℕ
rotl value shift = bit_or (value * 2 ^ shift % 2 ^ 32) (value / 2 ^ (32 - shift))

-- `load32` at the front of the bytes; what lies beyond them counts as zero.
unfoldable pub load32 : List ℕ → ℕ
load32 bytes =
    let byte = λ (i : ℕ). get_or bytes i 0 in
    bit_or (bit_or (bit_or (byte 0) (byte 1 * 2 ^ 8)) (byte 2 * 2 ^ 16)) (byte 3 * 2 ^ 24)

-- `store32`
unfoldable pub store32 : ℕ → List ℕ
store32 value =
    bit_and value 0xFF
    ∷ bit_and (value / 2 ^ 8) 0xFF
    ∷ bit_and (value / 2 ^ 16) 0xFF
    ∷ bit_and (value / 2 ^ 24) 0xFF
    ∷ []

unfoldable pub store_words : List ℕ → List ℕ
unfolding store32
store_words [] = []
store_words (w ∷ ws) = store32 w ++ store_words ws

-- ===== src/Crypto/XorCipher.antt =====
-- src/crypto/xor_cipher.cpp and include/crypto/xor_cipher.h: XOR with a key that rolls after each
-- block of 1024 bytes.
pub mod Laws
pub mod Derivation
use net_copy.Common.{
  ℕ, zero, suc, ◌+◌, ◌*◌, ◌/◌, ◌%◌, ◌^◌, List, [], ◌∷◌, length, get_or, replicate, bit_xor, bit_or,
  bit_and, Bool, true, false, ◌&&◌, ◌==◌, if◌then◌else◌, ltb,
}
use net_copy.Crypto.Stream.{xor_blocks, xor_from}

abbrev pub key_size : ℕ
key_size = 32

abbrev pub chunk_size : ℕ
chunk_size = 1024

pub record XorCipher : Type 0 where
  pub base_key : List ℕ
  pub current_key : List ℕ
  pub round_counter : ℕ

abbrev pub init : List ℕ → XorCipher
init key = record { base_key = key; current_key = key; round_counter = 0 }

-- `(x << 1) | (x >> 7)` on a byte.
abbrev rotate_left : ℕ → ℕ
rotate_left x = bit_or (x * 2) (x / 2 ^ 7) % 2 ^ 8

-- The loop of `update_key` from byte `i` on.
update_from : ℕ → ℕ → List ℕ → List ℕ
update_from round i [] = []
update_from round i (k ∷ ks) =
    rotate_left (bit_xor k (bit_and (round * 31 + i * 17) 0xFF)) ∷ update_from round (i + 1) ks

unfoldable pub update_key : XorCipher → XorCipher
unfolding update_from
update_key c =
    let round = (c.round_counter + 1) % 2 ^ 64 in
    record c { current_key = update_from round 0 c.current_key; round_counter = round }

-- `current_key_[i % KEY_SIZE]`
abbrev pub key_byte : XorCipher → ℕ → ℕ
key_byte c i = get_or c.current_key (i % key_size) 0

unfoldable pub process : XorCipher → List ℕ → List ℕ × XorCipher
process c bytes = xor_blocks chunk_size key_byte update_key (length bytes) c bytes

-- One block of any length.
unfoldable pub process_chunk : XorCipher → List ℕ → List ℕ × XorCipher
process_chunk c bytes = (xor_from chunk_size key_byte update_key c 0 bytes, update_key c)

unfoldable pub reset : XorCipher → XorCipher
reset c = record c { current_key = c.base_key; round_counter = 0 }

-- One round of `derive_key`: each byte of the password is mixed with the round and its position.
mix_from : ℕ → ℕ → List ℕ → List ℕ
mix_from round i [] = []
mix_from round i (b ∷ bs) =
    bit_xor b (bit_and (round * 31 + i * 17) 0xFF) ∷ mix_from round (i + 1) bs

-- `key[i] ^= data[i]` as far as both go.
xor_into : List ℕ → List ℕ → List ℕ
xor_into [] bs = []
xor_into (k ∷ ks) [] = k ∷ ks
xor_into (k ∷ ks) (b ∷ bs) = bit_xor k b ∷ xor_into ks bs

-- The rounds from `round` on, with `n` to go.
derive_rounds : ℕ → ℕ → List ℕ → List ℕ → List ℕ
derive_rounds zero round bytes key = key
derive_rounds (suc n) round bytes key =
    let mixed = mix_from round 0 bytes in derive_rounds n (round + 1) mixed (xor_into key mixed)

pub all_zero : List ℕ → Bool
all_zero [] = true
all_zero (k ∷ ks) = k == 0 && all_zero ks

-- A key of zeros is replaced by a pattern that is not.
abbrev pub or_pattern : List ℕ → List ℕ
or_pattern key = if all_zero key then replicate key_size 0x5A else key

unfoldable pub derive_key : List ℕ → List ℕ
unfolding derive_rounds mix_from xor_into all_zero
derive_key password = or_pattern (derive_rounds 1000 0 password (replicate key_size 0))

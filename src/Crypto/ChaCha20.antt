-- ===== src/Crypto/ChaCha20.antt =====
-- The class ChaCha20 of src/crypto/chacha20_poly1305.cpp.
use net_copy.Common.{
  ℕ, zero, suc, ◌+◌, ◌%◌, ◌^◌, bit_xor, List, [], ◌∷◌, ◌++◌, length, drop, get_or, set,
}
use net_copy.Crypto.Stream.{xor_blocks}
use net_copy.Crypto.Words.{add32, rotl, load32, store_words}

abbrev pub block_size : ℕ
block_size = 64

-- The sixteen words of `state_`.
abbrev pub State : Type 0
State = List ℕ

-- `memcpy` of `n` words from bytes, on a little-endian machine.
load_words : ℕ → List ℕ → List ℕ
load_words zero bytes = []
load_words (suc n) bytes = load32 bytes ∷ load_words n (drop 4 bytes)

unfoldable pub init : List ℕ → List ℕ → ℕ → State
unfolding load_words load32
init key nonce counter =
    0x61707865 ∷ 0x3320646e ∷ 0x79622d32 ∷ 0x6b206574 ∷ load_words 8 key
    ++ (counter ∷ load_words 3 nonce)

record Quarter : Type 0 where
  a : ℕ
  b : ℕ
  c : ℕ
  d : ℕ

-- One line of `quarter_round`: `a += b; d ^= a; d = rotl(d, n)`.
abbrev mix : ℕ → ℕ → ℕ → ℕ → ℕ × ℕ
mix a b d n = let a' = add32 a b in (a', rotl (bit_xor d a') n)

quarter_round : ℕ → ℕ → ℕ → ℕ → Quarter
unfolding add32 rotl
quarter_round a b c d =
    let (a₁, d₁) = mix a b d 16 in
    let (c₁, b₁) = mix c d₁ b 12 in
    let (a₂, d₂) = mix a₁ b₁ d₁ 8 in
    let (c₂, b₂) = mix c₁ d₂ b₁ 7 in record { a = a₂; b = b₂; c = c₂; d = d₂ }

-- `quarter_round` on four words of the working state.
quarter_at : ℕ → ℕ → ℕ → ℕ → State → State
unfolding quarter_round
quarter_at i j k l s =
    let q = quarter_round (get_or s i 0) (get_or s j 0) (get_or s k 0) (get_or s l 0) in
    set (set (set (set s i q.a) j q.b) k q.c) l q.d

double_round : State → State
unfolding quarter_at
double_round s =
    let s₁ = quarter_at 0 4 8 12 s in
    let s₂ = quarter_at 1 5 9 13 s₁ in
    let s₃ = quarter_at 2 6 10 14 s₂ in
    let s₄ = quarter_at 3 7 11 15 s₃ in
    let s₅ = quarter_at 0 5 10 15 s₄ in
    let s₆ = quarter_at 1 6 11 12 s₅ in let s₇ = quarter_at 2 7 8 13 s₆ in quarter_at 3 4 9 14 s₇

rounds : ℕ → State → State
unfolding double_round
rounds zero s = s
rounds (suc n) s = rounds n (double_round s)

add_words : State → State → State
add_words [] ys = []
add_words (x ∷ xs) [] = x ∷ xs
add_words (x ∷ xs) (y ∷ ys) = add32 x y ∷ add_words xs ys

unfoldable pub generate_keystream : State → List ℕ
unfolding rounds add_words add32 store_words
generate_keystream s = store_words (add_words (rounds 10 s) s)

-- `state_[12]++`
unfoldable pub increment : State → State
increment s = set s 12 ((get_or s 12 0 + 1) % 2 ^ 32)

abbrev pub keystream_byte : State → ℕ → ℕ
keystream_byte s i = get_or (generate_keystream s) i 0

-- The counter after the last block is of no use: each object encrypts once.
unfoldable pub encrypt : State → List ℕ → List ℕ
encrypt s bytes = (xor_blocks block_size keystream_byte increment (length bytes) s bytes).0

-- ===== src/Crypto/Poly1305.antt =====
-- The class Poly1305 of src/crypto/chacha20_poly1305.cpp, as it is written there.
use net_copy.Common.{
  ℕ, zero, suc, ◌+◌, ◌-◌, ◌*◌, ◌/◌, ◌%◌, ◌^◌, bit_and, List, [], ◌∷◌, ◌++◌, length, take, drop,
  get_or, ltb, if◌then◌else◌,
}
use net_copy.Crypto.Words.{load32, store32}

-- `r_`, `s_` and the accumulator `h_`, of 5, 4 and 5 words.
pub record Poly1305 : Type 0 where
  pub r : List ℕ
  pub s : List ℕ
  pub h : List ℕ

unfoldable pub init : List ℕ → Poly1305
unfolding load32
init key = record {
  r =
      bit_and (load32 key) 0x3ffffff
      ∷ bit_and (load32 (drop 3 key) / 2 ^ 2) 0x3ffff03
      ∷ bit_and (load32 (drop 6 key) / 2 ^ 4) 0x3ffc0ff
      ∷ bit_and (load32 (drop 9 key) / 2 ^ 6) 0x3f03fff
      ∷ bit_and (load32 (drop 12 key) / 2 ^ 8) 0x00fffff
      ∷ [];
  s =
      load32 (drop 16 key)
      ∷ load32 (drop 20 key)
      ∷ load32 (drop 24 key)
      ∷ load32 (drop 28 key)
      ∷ [];
  h = 0 ∷ 0 ∷ 0 ∷ 0 ∷ 0 ∷ [];
}

-- The five words of a block of at most 16 bytes, with the bit behind its last byte.
block_words : ℕ → List ℕ → List ℕ
unfolding load32
block_words zero bytes = []
block_words (suc n) bytes = load32 bytes ∷ block_words n (drop 4 bytes)

-- `carry += h_[i] + c[i]; h_[i] = carry & 0xffffffff; carry >>= 32;`, the last carry dropped.
unfoldable pub add_carry : ℕ → List ℕ → List ℕ → List ℕ
add_carry carry [] cs = []
add_carry carry (h ∷ hs) [] = h ∷ hs
add_carry carry (h ∷ hs) (c ∷ cs) =
    let sum = (carry + h + c) % 2 ^ 64 in sum % 2 ^ 32 ∷ add_carry (sum / 2 ^ 32) hs cs

-- The terms of `d[i]` from `j` on.
row : List ℕ → ℕ → ℕ → List ℕ → ℕ → ℕ
row r i j [] acc = acc
row r i j (h ∷ hs) acc =
    let plain = (acc + h * get_or r ((i + 5 - j) % 5) 0) % 2 ^ 64 in
    let d = if ltb i j then (plain + h * get_or r (i + 5 - j) 0 * 5) % 2 ^ 64 else plain in
    row r i (j + 1) hs d

rows : List ℕ → ℕ → ℕ → List ℕ → List ℕ
unfolding row
rows r zero i h = []
rows r (suc n) i h = row r i 0 h 0 ∷ rows r n (i + 1) h

zeros : List ℕ
zeros = 0 ∷ 0 ∷ 0 ∷ 0 ∷ 0 ∷ []

multiply_by_r : Poly1305 → Poly1305
unfolding rows add_carry zeros
multiply_by_r p = record p { h = add_carry 0 (rows p.r 5 0 p.h) zeros }

-- One block of `update`.
add_block : Poly1305 → List ℕ → Poly1305
unfolding block_words multiply_by_r
add_block p block =
    multiply_by_r (record p { h = add_carry 0 p.h (block_words 5 (block ++ (1 ∷ []))) })

-- The loop of `update`. Each round takes a byte at least.
update_loop : ℕ → Poly1305 → List ℕ → Poly1305
unfolding add_block
update_loop zero p bytes = p
update_loop (suc fuel) p [] = p
update_loop (suc fuel) p (b ∷ bytes) =
    update_loop fuel (add_block p (take 16 (b ∷ bytes))) (drop 16 (b ∷ bytes))

unfoldable pub update : Poly1305 → List ℕ → Poly1305
unfolding update_loop
update p bytes = update_loop (length bytes) p bytes

-- The sixteen bytes of the tag.
unfoldable pub finalize : Poly1305 → List ℕ
unfolding zeros add_carry store32
finalize p =
    let h = add_carry 0 p.h zeros in
    let word = λ (i : ℕ). get_or (add_carry 0 (take 4 h) p.s) i 0 in
    store32 (word 0) ++ (store32 (word 1) ++ (store32 (word 2) ++ store32 (word 3)))

-- ===== src/Crypto/Pbkdf2/Bytes.antt =====
-- A derived key has as many bytes as were asked for.
use net_copy.Common.{
  ℕ, zero, suc, ◌+◌, ◌-◌, ◌*◌, ◌/◌, ◌%◌, ◌^◌, ◌<◌, ◌≡◌, refl, ap, ◌∙◌, List, [], ◌∷◌, length,
  length-append, length-take, All, All-append, All-take, IsByte, arith,
}
use net_copy.Common.Xor.{bit_xor-lt}
use net_copy.Crypto.Sha3.Digest.{sha3_256-IsByte, length-sha3_256}
use net_copy.Crypto.Pbkdf2.{
  hmac_sha3_256, xor_rows, iterate, pbkdf2_block, pbkdf2_blocks, pbkdf2_sha3_256,
}

-- 32 bytes.
record IsHash (bytes : List ℕ) : Type 0 where
  are_bytes : All IsByte bytes
  size : length bytes ≡ 32

hmac_sha3_256-IsHash : (key bytes : List ℕ) → IsHash (hmac_sha3_256 key bytes)
unfolding hmac_sha3_256
hmac_sha3_256-IsHash key bytes = record { are_bytes = sha3_256-IsByte _; size = length-sha3_256 _ }

length-xor_rows : (ts us : List ℕ) → length (xor_rows ts us) ≡ length ts
unfolding xor_rows
length-xor_rows [] us = refl
length-xor_rows (t ∷ ts) [] = refl
length-xor_rows (t ∷ ts) (u ∷ us) = ap suc (length-xor_rows ts us)

xor_rows-IsByte : (ts us : List ℕ) → All IsByte ts → All IsByte us → All IsByte (xor_rows ts us)
unfolding xor_rows
xor_rows-IsByte [] us ht hu = tt
xor_rows-IsByte (t ∷ ts) [] ht hu = ht
xor_rows-IsByte (t ∷ ts) (u ∷ us) (ht, hts) (hu, hus) =
    (bit_xor-lt 8 t u ht hu, xor_rows-IsByte ts us hts hus)

iterate-IsHash : (key : List ℕ) (n : ℕ) (u t : List ℕ) → IsHash t → IsHash (iterate key n u t)
unfolding iterate
iterate-IsHash key zero u t h = h
iterate-IsHash key (suc n) u t h =
    let next = hmac_sha3_256 key u in
    iterate-IsHash key n next (xor_rows t next) (record {
      are_bytes = xor_rows-IsByte t next h.are_bytes (hmac_sha3_256-IsHash key u).are_bytes;
      size = length-xor_rows t next ∙ h.size;
    })

pbkdf2_block-IsHash :
    (key salt : List ℕ) (iterations index : ℕ) → IsHash (pbkdf2_block key salt iterations index)
unfolding pbkdf2_block
pbkdf2_block-IsHash key salt iterations index =
    iterate-IsHash key (iterations - 1) _ _ (hmac_sha3_256-IsHash key _)

pbkdf2_blocks-IsByte :
    (n : ℕ) (key salt : List ℕ) (iterations index : ℕ)
    → All IsByte (pbkdf2_blocks n key salt iterations index)
unfolding pbkdf2_blocks
pbkdf2_blocks-IsByte zero key salt iterations index = tt
pbkdf2_blocks-IsByte (suc n) key salt iterations index =
    All-append IsByte (pbkdf2_block key salt iterations index)
      (pbkdf2_blocks n key salt iterations (index + 1))
      (pbkdf2_block-IsHash key salt iterations index).are_bytes
      (pbkdf2_blocks-IsByte n key salt iterations (index + 1))

length-pbkdf2_blocks :
    (n : ℕ) (key salt : List ℕ) (iterations index : ℕ)
    → length (pbkdf2_blocks n key salt iterations index) ≡ n * 32
unfolding pbkdf2_blocks
length-pbkdf2_blocks zero key salt iterations index = refl
length-pbkdf2_blocks (suc n) key salt iterations index = omega (
  arith,
  length-append (pbkdf2_block key salt iterations index)
      (pbkdf2_blocks n key salt iterations (index + 1)),
  (pbkdf2_block-IsHash key salt iterations index).size,
  length-pbkdf2_blocks n key salt iterations (index + 1),
)

pub pbkdf2_sha3_256-IsByte :
    (password salt : List ℕ) (iterations output_len : ℕ)
    → All IsByte (pbkdf2_sha3_256 password salt iterations output_len)
unfolding pbkdf2_sha3_256
pbkdf2_sha3_256-IsByte password salt iterations output_len =
    All-take IsByte output_len _ (pbkdf2_blocks-IsByte _ password salt iterations 1)

pub length-pbkdf2_sha3_256 :
    (password salt : List ℕ) (iterations output_len : ℕ)
    → output_len < 2 ^ 32
    → length (pbkdf2_sha3_256 password salt iterations output_len) ≡ output_len
unfolding pbkdf2_sha3_256
length-pbkdf2_sha3_256 password salt iterations output_len h =
    let n = (output_len + 31) / 32 % 2 ^ 32 in
    omega (
      arith,
      length-take output_len (pbkdf2_blocks n password salt iterations 1),
      length-pbkdf2_blocks n password salt iterations 1,
    )

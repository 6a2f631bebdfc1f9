-- ===== src/Crypto/Hex/RoundTrip.antt =====
-- Every row of bytes comes back from its hexadecimal form.
use net_copy.Common.{
  ℕ, ◌*◌, ◌/◌, ◌%◌, ◌<◌, ◌≡◌, refl, ap, List, [], ◌∷◌, length, some, ok, All, IsByte, arith, eq→eqb,
}
use net_copy.Crypto.Hex.{hex_digit, hex_value, bytes_to_hex, hex_to_bytes, read_pairs}

hex_value-hex_digit : (n : ℕ) → n < 16 → hex_value (hex_digit n) ≡ some n
hex_value-hex_digit n h = ground arith

pub length-bytes_to_hex : (bs : List ℕ) → length (bytes_to_hex bs) ≡ length bs * 2
unfolding bytes_to_hex
length-bytes_to_hex [] = refl
length-bytes_to_hex (b ∷ bs) = omega (arith, length-bytes_to_hex bs)

read_pairs-bytes_to_hex : (bs : List ℕ) → All IsByte bs → read_pairs (bytes_to_hex bs) ≡ bs
unfolding bytes_to_hex read_pairs
read_pairs-bytes_to_hex [] h = refl
read_pairs-bytes_to_hex (b ∷ bs) (hb, hs) =
    rw
      (
        hex_value-hex_digit (b / 16) (omega arith),
        hex_value-hex_digit (b % 16) (omega arith),
        read_pairs-bytes_to_hex bs hs,
      )
      (ap (λ n. n ∷ bs) (omega arith))

-- Whatever the bytes, `hex_to_bytes` gives them back from the text that `bytes_to_hex` writes.
pub hex_to_bytes-bytes_to_hex :
    (bs : List ℕ) → All IsByte bs → hex_to_bytes (bytes_to_hex bs) ≡ ok bs
unfolding hex_to_bytes
hex_to_bytes-bytes_to_hex bs h =
    rw
      (
        eq→eqb (length (bytes_to_hex bs) % 2) 0 (omega (arith, length-bytes_to_hex bs)),
        read_pairs-bytes_to_hex bs h,
      )
      refl

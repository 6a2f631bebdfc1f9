-- ===== src/Protocol/Wire.antt =====
-- The serialization helpers of src/protocol/message.cpp (lines 11-87). A writer returns the bytes
-- that it appends. A `std::string` and a `std::vector<uint8_t>` are both lists of bytes.
pub mod Laws
pub mod Ranges
pub mod Sequence
use net_copy.Common.{
  ℕ, zero, suc, ◌+◌, ◌*◌, ◌/◌, ◌%◌, ◌^◌, ◌<◌, bit_and, bit_or, List, [], ◌∷◌, ◌++◌, Bool, true,
  false, not, Result, ok, throw, protocol_exception, String, ltb, ◌==◌, if◌then◌else◌, length, take,
  drop, All,
}
use net_copy.Protocol.Reader.{Reader, ◌>>=◌, return}
use net_copy.Common.{IsByte}

abbrev pub IsU8 : ℕ → Type 0
IsU8 n = n < 2 ^ 8

abbrev pub IsU32 : ℕ → Type 0
IsU32 n = n < 2 ^ 32

abbrev pub IsU64 : ℕ → Type 0
IsU64 n = n < 2 ^ 64

-- Bytes whose number fits the four bytes of a length.
abbrev pub IsSized : List ℕ → Type 0
IsSized bs = All IsByte bs × IsU32 (length bs)

-- `(value >> k) & 0xFF`
abbrev byte_at : ℕ → ℕ → ℕ
byte_at value k = bit_and (value / 2 ^ k) 0xFF

unfoldable pub write_uint8 : ℕ → List ℕ
write_uint8 value = value % 2 ^ 8 ∷ []

unfoldable pub write_bool : Bool → List ℕ
write_bool b = (if b then 1 else 0) ∷ []

unfoldable pub write_uint32 : ℕ → List ℕ
write_uint32 value = byte_at value 0 ∷ byte_at value 8 ∷ byte_at value 16 ∷ byte_at value 24 ∷ []

-- The loop of `write_uint64`, with `n` rounds to go.
write_uint64_loop : ℕ → ℕ → ℕ → List ℕ
write_uint64_loop zero i value = []
write_uint64_loop (suc n) i value = byte_at value (i * 8) ∷ write_uint64_loop n (i + 1) value

unfoldable pub write_uint64 : ℕ → List ℕ
unfolding write_uint64_loop
write_uint64 value = write_uint64_loop 8 0 value

unfoldable pub write_bytes : List ℕ → List ℕ
unfolding write_uint32
write_bytes bytes = write_uint32 (length bytes % 2 ^ 32) ++ bytes

unfoldable pub write_string : List ℕ → List ℕ
unfolding write_uint32
write_string str = write_uint32 (length str % 2 ^ 32) ++ str

unfoldable pub read_uint32 : Reader ℕ
read_uint32 (b₀ ∷ b₁ ∷ b₂ ∷ b₃ ∷ rest) =
    ok (bit_or (bit_or (bit_or b₀ (b₁ * 2 ^ 8)) (b₂ * 2 ^ 16)) (b₃ * 2 ^ 24), rest)
read_uint32 _ = throw (protocol_exception "Buffer underflow reading uint32")

-- The loop of `read_uint64`: it has checked that there are eight bytes.
read_uint64_loop : ℕ → ℕ → ℕ → List ℕ → ℕ
read_uint64_loop zero i value bs = value
read_uint64_loop (suc n) i value [] = value
read_uint64_loop (suc n) i value (b ∷ bs) =
    read_uint64_loop n (i + 1) (bit_or value (b * 2 ^ (i * 8))) bs

unfoldable pub read_uint64 : Reader ℕ
unfolding read_uint64_loop
read_uint64 bs =
    if ltb (length bs) 8
    then throw (protocol_exception "Buffer underflow reading uint64")
    else ok (read_uint64_loop 8 0 0 bs, drop 8 bs)

-- The rest of `read_string` and `read_bytes`, after the length.
unfoldable pub read_counted : String → ℕ → Reader (List ℕ)
read_counted message n bs =
    if ltb (length bs) n then throw (protocol_exception message) else ok (take n bs, drop n bs)

unfoldable pub read_string : Reader (List ℕ)
unfolding read_uint32 read_counted ◌>>=◌
read_string = do length ← read_uint32; read_counted "Buffer underflow reading string" length

unfoldable pub read_bytes : Reader (List ℕ)
unfolding read_uint32 read_counted ◌>>=◌
read_bytes = do length ← read_uint32; read_counted "Buffer underflow reading bytes" length

-- `if (offset >= data.size()) throw ...; x = data[offset++];`
unfoldable pub read_uint8 : String → Reader ℕ
read_uint8 message [] = throw (protocol_exception message)
read_uint8 message (b ∷ rest) = ok (b, rest)

-- The same with `data[offset++] != 0`.
unfoldable pub read_bool : String → Reader Bool
read_bool message [] = throw (protocol_exception message)
read_bool message (b ∷ rest) = ok (not (b == 0), rest)

-- `if (offset < data.size()) x = data[offset++]; else x = d;`
unfoldable pub uint8_or : ℕ → Reader ℕ
uint8_or d [] = ok (d, [])
uint8_or d (b ∷ rest) = ok (b, rest)

-- The same with `data[offset++] != 0`.
unfoldable pub bool_or : Bool → Reader Bool
bool_or d [] = ok (d, [])
bool_or d (b ∷ rest) = ok (not (b == 0), rest)

-- ===== src/Crypto/Hex.antt =====
-- `bytes_to_hex` and `hex_to_bytes` of src/crypto/sha3.cpp. A string is the list of its characters'
-- codes.
pub mod RoundTrip
use net_copy.Common.{
  ℕ, zero, suc, ◌+◌, ◌*◌, ◌-◌, ◌/◌, ◌%◌, List, [], ◌∷◌, ◌++◌, length, Option, some, none, leb, ltb,
  ◌==◌, ◌&&◌, ◌||◌, Bool, if◌then◌else◌, Result, ok, throw, crypto_exception,
}

-- The digit that `std::hex` writes for a value below 16.
abbrev pub hex_digit : ℕ → ℕ
hex_digit n = if ltb n 10 then 48 + n else 87 + n

unfoldable pub bytes_to_hex : List ℕ → List ℕ
bytes_to_hex [] = []
bytes_to_hex (b ∷ bs) = hex_digit (b / 16) ∷ hex_digit (b % 16) ∷ bytes_to_hex bs

abbrev pub hex_value : ℕ → Option ℕ
hex_value c =
    if leb 48 c && leb c 57
    then some (c - 48)
    else if leb 97 c && leb c 102
    then some (c - 87)
    else if leb 65 c && leb c 70
    then some (c - 55)
    else none

abbrev is_space : ℕ → Bool
is_space c = c == 32 || leb 9 c && leb c 13

-- What `ss >> std::hex >> byte_val` reads from two characters, as a byte: it skips a space, takes a
-- sign, stops at a character that is no digit, and gives 0 where there is no number. (Of two spaces
-- it reads nothing, and the byte is indeterminate; it is 0 here.)
abbrev pub read_pair : ℕ → Option ℕ → Option ℕ → ℕ
read_pair c (some a) (some b) = a * 16 + b
read_pair c (some a) none = a
read_pair c none (some b) =
    if is_space c || c == 43 then b else if c == 45 then (256 - b) % 256 else 0
read_pair c none none = 0

unfoldable pub read_pairs : List ℕ → List ℕ
read_pairs [] = []
read_pairs (c ∷ []) = []
read_pairs (c ∷ d ∷ cs) = read_pair c (hex_value c) (hex_value d) ∷ read_pairs cs

unfoldable pub hex_to_bytes : List ℕ → Result (List ℕ)
hex_to_bytes hex =
    if length hex % 2 == 0
    then ok (read_pairs hex)
    else throw (crypto_exception "hex_to_bytes: odd-length hex string")

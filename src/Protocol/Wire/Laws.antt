-- ===== src/Protocol/Wire/Laws.antt =====
-- What each writer wrote, its reader reads back; and what each reader can return.
use net_copy.Common.{
  ℕ, ◌+◌, ◌*◌, ◌/◌, ◌%◌, ◌^◌, ◌≤◌, ◌<◌, bit_and, bit_or, ◌≡◌, refl, ap, List, ◌++◌, Bool, true,
  false, ok, length, length-append, take-length_append, drop-length_append, arith, String, ◌∙◌,
}
use net_copy.Common.Bits.{bit_and_byte, bit_or_shifted, zero-bit_or}
use native.Mathlib.Nat.{add-mul-mod_self_left, mod-eq_of_lt, div-add-mod, mod-lt, one-le-pow}
use net_copy.Protocol.Reader.{
  Reads, >>=-Reads, ◌>>=◌, if_remaining, if_remaining-Reads, return-Reads,
}
use net_copy.Protocol.Wire.{
  IsU8, IsU32, IsU64, IsSized, write_uint8, write_bool, uint8_or, bool_or, write_uint32,
  write_uint64, write_uint64_loop, write_bytes, write_string, read_uint8, read_bool, read_uint32,
  read_uint64, read_uint64_loop, read_counted, read_bytes, read_string, byte_at,
}

pub uint8-Reads : (message : String) (n : ℕ) → IsU8 n → Reads (read_uint8 message) (write_uint8 n) n
unfolding read_uint8 write_uint8
uint8-Reads message n h = record { apply = λ rest. ground arith }

pub uint8_or-Reads : (d n : ℕ) → IsU8 n → Reads (uint8_or d) (write_uint8 n) n
unfolding uint8_or write_uint8
uint8_or-Reads d n h = record { apply = λ rest. ground arith }

pub bool-Reads : (message : String) (b : Bool) → Reads (read_bool message) (write_bool b) b
unfolding read_bool write_bool
bool-Reads message true = record { apply = λ rest. refl }
bool-Reads message false = record { apply = λ rest. refl }

pub bool_or-Reads : (d b : Bool) → Reads (bool_or d) (write_bool b) b
unfolding bool_or write_bool
bool_or-Reads d true = record { apply = λ rest. refl }
bool_or-Reads d false = record { apply = λ rest. refl }

-- A remainder by `256 d`, from that by `d` and one more byte.
mod_byte : (v d : ℕ) → 0 < d → v % (d * 256) ≡ v % d + v / d % 256 * d
mod_byte v d h =
    ap (λ (t : ℕ). t % (d * 256)) parts
    ∙ add-mul-mod_self_left (v % d + v / d % 256 * d) (d * 256) (v / d / 256)
    ∙ mod-eq_of_lt fits
  where
    parts : v ≡ (v % d + v / d % 256 * d) + d * 256 * (v / d / 256)
    parts = omega (arith, div-add-mod v d, ap (λ (t : ℕ). d * t) (div-add-mod (v / d) 256))

    fits : v % d + v / d % 256 * d < d * 256
    fits = grind (arith, mod-lt v h)

-- One more byte of a number, from bit `k` on.
or_byte : (k v : ℕ) → bit_or (v % 2 ^ k) (bit_and (v / 2 ^ k) 0xFF * 2 ^ k) ≡ v % (2 ^ k * 256)
or_byte k v =
    bit_or_shifted k (v % 2 ^ k) (bit_and (v / 2 ^ k) 0xFF)
      (mod-lt v (one-le-pow k 2 (omega arith)))
    ∙ omega (
      arith,
      ap (λ (t : ℕ). t * 2 ^ k) (bit_and_byte (v / 2 ^ k)),
      mod_byte v (2 ^ k) (one-le-pow k 2 (omega arith)),
    )

first_byte : (n : ℕ) → byte_at n 0 ≡ n % 256
first_byte n = omega (arith, bit_and_byte (n / 1))

first_byte_or : (n : ℕ) → bit_or 0 (byte_at n 0 * 1) ≡ n % 256
first_byte_or n = zero-bit_or (byte_at n 0 * 1) ∙ omega (arith, first_byte n)

pub uint32-Reads : (n : ℕ) → IsU32 n → Reads read_uint32 (write_uint32 n) n
unfolding read_uint32 write_uint32
uint32-Reads n h = record { apply = λ rest. ap (λ (v : ℕ). ok (v, rest)) bytes }
  where
    bytes :
        bit_or
          (bit_or (bit_or (byte_at n 0) (byte_at n 8 * 2 ^ 8)) (byte_at n 16 * 2 ^ 16))
          (byte_at n 24 * 2 ^ 24)
        ≡ n
    bytes = rw (first_byte n, or_byte 8 n, or_byte 16 n, or_byte 24 n) (mod-eq_of_lt h)

pub uint64-Reads : (n : ℕ) → IsU64 n → Reads read_uint64 (write_uint64 n) n
unfolding read_uint64 write_uint64
uint64-Reads n h = record { apply = λ rest. ground (arith, bytes rest) }
  where
    bytes : (rest : List ℕ) → read_uint64_loop 8 0 0 (write_uint64_loop 8 0 n ++ rest) ≡ n
    bytes rest =
        rw
          (
            first_byte_or n,
            or_byte 8 n,
            or_byte 16 n,
            or_byte 24 n,
            or_byte 32 n,
            or_byte 40 n,
            or_byte 48 n,
            or_byte 56 n,
          )
          (mod-eq_of_lt h)

pub counted-Reads :
    (message : String) (bs : List ℕ) → Reads (read_counted message (length bs)) bs bs
unfolding read_counted
counted-Reads message bs = record {
  apply = λ rest.
      ground (arith, length-append bs rest, take-length_append bs rest, drop-length_append bs rest);
}

pub bytes-Reads : (bs : List ℕ) → IsSized bs → Reads read_bytes (write_bytes bs) bs
unfolding read_bytes write_bytes
bytes-Reads bs h =
    rw (mod-eq_of_lt h.1)
      (>>=-Reads _ _ _ _ _ _ (uint32-Reads (length bs) h.1) (counted-Reads _ bs))

pub string-Reads : (bs : List ℕ) → IsSized bs → Reads read_string (write_string bs) bs
unfolding read_string write_string
string-Reads bs h =
    rw (mod-eq_of_lt h.1)
      (>>=-Reads _ _ _ _ _ _ (uint32-Reads (length bs) h.1) (counted-Reads _ bs))

pub length-write_uint64 : (n : ℕ) → length (write_uint64 n) ≡ 8
unfolding write_uint64
length-write_uint64 n = refl

length-write_uint32 : (n : ℕ) → length (write_uint32 n) ≡ 4
unfolding write_uint32
length-write_uint32 n = refl

length-write_string : (bs : List ℕ) → length (write_string bs) ≡ 4 + length bs
unfolding write_string
length-write_string bs = omega arith

-- Fields that the reader takes only if the buffer goes on.
pub uint64_or-Reads :
    (k d n : ℕ) → k ≤ 8 → IsU64 n → Reads (if_remaining k read_uint64 d) (write_uint64 n) n
uint64_or-Reads k d n hk h =
    if_remaining-Reads k _ d _ n (omega (arith, length-write_uint64 n)) (uint64-Reads n h)

pub uint32_or-Reads :
    (k d n : ℕ) → k ≤ 4 → IsU32 n → Reads (if_remaining k read_uint32 d) (write_uint32 n) n
uint32_or-Reads k d n hk h =
    if_remaining-Reads k _ d _ n (omega (arith, length-write_uint32 n)) (uint32-Reads n h)

pub string_or-Reads :
    (k : ℕ) (d bs : List ℕ)
    → k ≤ 4
    → IsSized bs
    → Reads (if_remaining k read_string d) (write_string bs) bs
string_or-Reads k d bs hk h =
    if_remaining-Reads k _ d _ bs (omega (arith, length-write_string bs)) (string-Reads bs h)

pub ruleset wire_laws = (
  uint8-Reads, uint8_or-Reads, bool-Reads, bool_or-Reads, uint32-Reads, uint64-Reads, bytes-Reads,
  string-Reads, uint64_or-Reads, uint32_or-Reads, string_or-Reads, return-Reads, >>=-Reads,
)

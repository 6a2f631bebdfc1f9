-- ===== src/Crypto/Sha3/Digest.antt =====
-- A digest is 32 bytes.
use net_copy.Common.{
  ℕ, zero, suc, ◌+◌, ◌*◌, ◌/◌, ◌^◌, ◌≡◌, refl, ap, ◌∙◌, List, [], ◌∷◌, length, length-append,
  length-replicate, drop, take, leb, leb→le, leb-false→lt, Bool-cases, inl, inr, ◌≤◌, All,
  All-append, IsByte, arith,
}
use net_copy.Common.Bits.{bit_and_byte}
use net_copy.Crypto.Keccak.{length-keccak_f1600}
use net_copy.Crypto.Sha3.Blocks.{blocks_long, blocks_short}
use net_copy.Crypto.Sha3.{
  absorb, absorb_blocks, xor_lanes, lane_bytes, squeeze, squeeze_lanes, finish, pad, sha3_256,
  zero_state,
}

length-xor_lanes : (n : ℕ) (block s : List ℕ) → length (xor_lanes n block s) ≡ length s
unfolding xor_lanes
length-xor_lanes zero block s = refl
length-xor_lanes (suc n) block [] = refl
length-xor_lanes (suc n) block (lane ∷ lanes) = ap suc (length-xor_lanes n (drop 8 block) lanes)

length-absorb : (s block : List ℕ) → length (absorb s block) ≡ length s
unfolding absorb
length-absorb s block = length-keccak_f1600 (xor_lanes 17 block s) ∙ length-xor_lanes 17 block s

length-absorb_blocks : (f : ℕ) (s bytes : List ℕ) → length (absorb_blocks f s bytes).0 ≡ length s
length-absorb_blocks zero s bytes = unfold absorb_blocks in refl
length-absorb_blocks (suc f) s bytes = elim (Bool-cases (leb 136 (length bytes))) [
  | inl y ↦
      ap (λ p. length p.0) (blocks_long f s bytes (leb→le 136 (length bytes) y))
      ∙ length-absorb_blocks f (absorb s (take 136 bytes)) (drop 136 bytes)
      ∙ length-absorb s (take 136 bytes)
  | inr n ↦ ap (λ p. length p.0) (blocks_short (suc f) s bytes (leb-false→lt 136 (length bytes) n))
]

length-lane_bytes : (n b lane : ℕ) → length (lane_bytes n b lane) ≡ n
unfolding lane_bytes
length-lane_bytes zero b lane = refl
length-lane_bytes (suc n) b lane = ap suc (length-lane_bytes n (b + 1) lane)

lane_bytes-IsByte : (n b lane : ℕ) → All IsByte (lane_bytes n b lane)
unfolding lane_bytes
lane_bytes-IsByte zero b lane = tt
lane_bytes-IsByte (suc n) b lane =
    (omega (arith, bit_and_byte (lane / 2 ^ (8 * b))), lane_bytes-IsByte n (b + 1) lane)

squeeze_lanes-IsByte : (n : ℕ) (s : List ℕ) → All IsByte (squeeze_lanes n s)
unfolding squeeze_lanes
squeeze_lanes-IsByte zero s = tt
squeeze_lanes-IsByte (suc n) [] = tt
squeeze_lanes-IsByte (suc n) (lane ∷ lanes) =
    All-append IsByte (lane_bytes 8 0 lane) (squeeze_lanes n lanes) (lane_bytes-IsByte 8 0 lane)
      (squeeze_lanes-IsByte n lanes)

length-squeeze_lanes : (n : ℕ) (s : List ℕ) → n ≤ length s → length (squeeze_lanes n s) ≡ n * 8
unfolding squeeze_lanes
length-squeeze_lanes zero s h = refl
length-squeeze_lanes (suc n) [] h = absurd (omega arith)
length-squeeze_lanes (suc n) (lane ∷ lanes) h = omega (
  arith,
  length-append (lane_bytes 8 0 lane) (squeeze_lanes n lanes),
  length-lane_bytes 8 0 lane,
  length-squeeze_lanes n lanes (omega arith),
)

pub sha3_256-IsByte : (bytes : List ℕ) → All IsByte (sha3_256 bytes)
unfolding sha3_256 finish squeeze
sha3_256-IsByte bytes = squeeze_lanes-IsByte 4 _

pub length-sha3_256 : (bytes : List ℕ) → length (sha3_256 bytes) ≡ 32
unfolding sha3_256 finish squeeze
length-sha3_256 bytes =
    let p = absorb_blocks (length bytes) zero_state bytes in
    length-squeeze_lanes 4 (absorb p.0 (pad p.1)) (
      omega (
        arith,
        length-absorb p.0 (pad p.1),
        length-absorb_blocks (length bytes) zero_state bytes,
        length-replicate {A = ℕ} 25 0,
      ))

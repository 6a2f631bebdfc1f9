-- ===== src/Crypto/Keccak.antt =====
-- The permutation Keccak-f[1600] of src/crypto/sha3.cpp, on 25 lanes of 64 bits.
use net_copy.Common.{
  ℕ, suc, ◌+◌, ◌*◌, ◌-◌, ◌/◌, ◌%◌, ◌^◌, bit_and, bit_or, bit_xor, List, [], ◌∷◌, get_or, set,
  length, length-set, ◌≡◌, refl, ap, ◌∙◌,
}

-- `KECCAK_ROUND_CONSTANTS`
abbrev round_constants : List ℕ
round_constants =
    0x0000000000000001 ∷ 0x0000000000008082 ∷ 0x800000000000808A ∷ 0x8000000080008000
    ∷ 0x000000000000808B ∷ 0x0000000080000001 ∷ 0x8000000080008081 ∷ 0x8000000000008009
    ∷ 0x000000000000008A ∷ 0x0000000000000088 ∷ 0x0000000080008009 ∷ 0x000000008000000A
    ∷ 0x000000008000808B ∷ 0x800000000000008B ∷ 0x8000000000008089 ∷ 0x8000000000008003
    ∷ 0x8000000000008002 ∷ 0x8000000000000080 ∷ 0x000000000000800A ∷ 0x800000008000000A
    ∷ 0x8000000080008081 ∷ 0x8000000000008080 ∷ 0x0000000080000001 ∷ 0x8000000080008008 ∷ []

-- `KECCAK_RHO` and `KECCAK_PI`
abbrev rho : List ℕ
rho =
    1 ∷ 3 ∷ 6 ∷ 10 ∷ 15 ∷ 21 ∷ 28 ∷ 36 ∷ 45 ∷ 55 ∷ 2 ∷ 14 ∷ 27 ∷ 41 ∷ 56 ∷ 8 ∷ 25 ∷ 43 ∷ 62 ∷ 18
    ∷ 39 ∷ 61 ∷ 20 ∷ 44 ∷ []

abbrev pi : List ℕ
pi =
    10 ∷ 7 ∷ 11 ∷ 17 ∷ 18 ∷ 3 ∷ 5 ∷ 16 ∷ 8 ∷ 21 ∷ 24 ∷ 4 ∷ 15 ∷ 23 ∷ 19 ∷ 13 ∷ 12 ∷ 2 ∷ 20 ∷ 14 ∷ 22
    ∷ 9 ∷ 6 ∷ 1 ∷ []

rotl64 : ℕ → ℕ → ℕ
rotl64 x n = bit_or (x * 2 ^ n % 2 ^ 64) (x / 2 ^ (64 - n))

-- `C[x]`
column : List ℕ → ℕ → ℕ
column s x =
    let lane = λ (i : ℕ). get_or s i 0 in
    bit_xor (bit_xor (bit_xor (bit_xor (lane x) (lane (x + 5))) (lane (x + 10))) (lane (x + 15)))
      (lane (x + 20))

-- `D[x]`
parity : List ℕ → ℕ → ℕ
unfolding column rotl64
parity s x = bit_xor (column s ((x + 4) % 5)) (rotl64 (column s ((x + 1) % 5)) 1)

-- `state[i] ^= D[i % 5]` on the lanes from `i` on, with the parities of the whole state.
theta_from : List ℕ → ℕ → List ℕ → List ℕ
unfolding parity
theta_from s i [] = []
theta_from s i (lane ∷ lanes) = bit_xor lane (parity s (i % 5)) ∷ theta_from s (i + 1) lanes

-- The combined steps rho and pi, each lane moved to the next place.
rho_pi : List ℕ → List ℕ → ℕ → List ℕ → List ℕ
unfolding rotl64
rho_pi [] ns last s = s
rho_pi (j ∷ js) [] last s = s
rho_pi (j ∷ js) (n ∷ ns) last s = rho_pi js ns (get_or s j 0) (set s j (rotl64 last n))

-- `row[x] ^ (~row[x + 1] & row[x + 2])` for the lane `i`.
chi_lane : List ℕ → ℕ → ℕ
chi_lane s i =
    let at = λ (x : ℕ). get_or s (i / 5 * 5 + x % 5) 0 in
    bit_xor (at (i % 5)) (bit_and (2 ^ 64 - 1 - at (i % 5 + 1)) (at (i % 5 + 2)))

chi_from : List ℕ → ℕ → List ℕ → List ℕ
unfolding chi_lane
chi_from s i [] = []
chi_from s i (lane ∷ lanes) = chi_lane s i ∷ chi_from s (i + 1) lanes

keccak_round : ℕ → List ℕ → List ℕ
unfolding theta_from rho_pi chi_from
keccak_round constant s =
    let s₁ = theta_from s 0 s in
    let s₂ = rho_pi pi rho (get_or s₁ 1 0) s₁ in
    let s₃ = chi_from s₂ 0 s₂ in set s₃ 0 (bit_xor (get_or s₃ 0 0) constant)

keccak_rounds : List ℕ → List ℕ → List ℕ
unfolding keccak_round
keccak_rounds [] s = s
keccak_rounds (constant ∷ constants) s = keccak_rounds constants (keccak_round constant s)

unfoldable pub keccak_f1600 : List ℕ → List ℕ
unfolding keccak_rounds
keccak_f1600 s = keccak_rounds round_constants s

length-theta_from :
    (s : List ℕ) (i : ℕ) (lanes : List ℕ) → length (theta_from s i lanes) ≡ length lanes
unfolding theta_from
length-theta_from s i [] = refl
length-theta_from s i (lane ∷ lanes) = ap suc (length-theta_from s (i + 1) lanes)

length-chi_from : (s : List ℕ) (i : ℕ) (lanes : List ℕ) → length (chi_from s i lanes) ≡ length lanes
unfolding chi_from
length-chi_from s i [] = refl
length-chi_from s i (lane ∷ lanes) = ap suc (length-chi_from s (i + 1) lanes)

length-rho_pi : (js ns : List ℕ) (last : ℕ) (s : List ℕ) → length (rho_pi js ns last s) ≡ length s
unfolding rho_pi
length-rho_pi [] ns last s = refl
length-rho_pi (j ∷ js) [] last s = refl
length-rho_pi (j ∷ js) (n ∷ ns) last s =
    length-rho_pi js ns (get_or s j 0) (set s j (rotl64 last n)) ∙ length-set s j (rotl64 last n)

length-keccak_round : (constant : ℕ) (s : List ℕ) → length (keccak_round constant s) ≡ length s
unfolding keccak_round
length-keccak_round constant s =
    let s₁ = theta_from s 0 s in
    let s₂ = rho_pi pi rho (get_or s₁ 1 0) s₁ in
    let s₃ = chi_from s₂ 0 s₂ in
    length-set s₃ 0 (bit_xor (get_or s₃ 0 0) constant)
    ∙ length-chi_from s₂ 0 s₂
    ∙ length-rho_pi pi rho (get_or s₁ 1 0) s₁
    ∙ length-theta_from s 0 s

length-keccak_rounds : (constants s : List ℕ) → length (keccak_rounds constants s) ≡ length s
unfolding keccak_rounds
length-keccak_rounds [] s = refl
length-keccak_rounds (constant ∷ constants) s =
    length-keccak_rounds constants (keccak_round constant s) ∙ length-keccak_round constant s

pub length-keccak_f1600 : (s : List ℕ) → length (keccak_f1600 s) ≡ length s
unfolding keccak_f1600
length-keccak_f1600 s = length-keccak_rounds round_constants s

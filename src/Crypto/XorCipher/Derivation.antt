-- ===== src/Crypto/XorCipher/Derivation.antt =====
-- What the derived key depends on.
use net_copy.Common.{
  ℕ, zero, suc, ◌+◌, ◌*◌, ◌≡◌, refl, ap, sym, ◌∙◌, List, [], ◌∷◌, length, replicate, bit_xor,
  bit_and,
}
use net_copy.Common.Xor.{bit_xor_middle}
use net_copy.Crypto.XorCipher.{derive_key, derive_rounds, mix_from, xor_into, key_size, or_pattern}

-- What `mix_from` puts on the byte `i`.
abbrev mask : ℕ → ℕ → ℕ
mask round i = bit_and (round * 31 + i * 17) 0xFF

-- The masks of `n` bytes from `i` on.
masks : ℕ → ℕ → ℕ → List ℕ
masks round i zero = []
masks round i (suc n) = mask round i ∷ masks round (i + 1) n

length-mix_from : (round i : ℕ) (bs : List ℕ) → length (mix_from round i bs) ≡ length bs
unfolding mix_from
length-mix_from round i [] = refl
length-mix_from round i (b ∷ bs) = ap suc (length-mix_from round (i + 1) bs)

-- Of two rounds the password falls out, and the masks of the second stay.
two_rounds :
    (r s i : ℕ) (bs key : List ℕ)
    → xor_into (xor_into key (mix_from r i bs)) (mix_from s i (mix_from r i bs))
      ≡ xor_into key (masks s i (length bs))
unfolding xor_into mix_from masks
two_rounds r s i [] [] = refl
two_rounds r s i [] (k ∷ ks) = refl
two_rounds r s i (b ∷ bs) [] = refl
two_rounds r s i (b ∷ bs) (k ∷ ks) =
    cc (bit_xor_middle k (bit_xor b (mask r i)) (mask s i), two_rounds r s (i + 1) bs ks)

twice : ℕ → ℕ
twice zero = zero
twice (suc n) = suc (suc (twice n))

-- An even number of rounds.
even_rounds :
    (n round : ℕ) (bs cs key : List ℕ)
    → length bs ≡ length cs
    → derive_rounds (twice n) round bs key ≡ derive_rounds (twice n) round cs key
unfolding derive_rounds twice
even_rounds zero round bs cs key h = refl
even_rounds (suc n) round bs cs key h =
    let next = round + 1 in
    let bs₂ = mix_from next 0 (mix_from round 0 bs) in
    let cs₂ = mix_from next 0 (mix_from round 0 cs) in
    let sizes : length bs₂ ≡ length cs₂ =
      length-mix_from next 0 (mix_from round 0 bs)
      ∙ length-mix_from round 0 bs
      ∙ h
      ∙ sym (length-mix_from round 0 cs)
      ∙ sym (length-mix_from next 0 (mix_from round 0 cs)) in
    ap (derive_rounds (twice n) (next + 1) bs₂)
      (two_rounds round next 0 bs key ∙ ap (λ l. xor_into key (masks next 0 l)) h)
    ∙ even_rounds n (next + 1) bs₂ cs₂ (xor_into key (masks next 0 (length cs))) sizes
    ∙ ap (derive_rounds (twice n) (next + 1) cs₂) (sym (two_rounds round next 0 cs key))

-- All passwords of one length have one key.
pub derive_key-length : (p q : List ℕ) → length p ≡ length q → derive_key p ≡ derive_key q
unfolding derive_key twice
derive_key-length p q h = ap or_pattern (even_rounds 500 0 p q (replicate key_size 0) h)

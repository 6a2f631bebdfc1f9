-- ===== src/Crypto/XorCipher/Laws.antt =====
-- What one cipher encrypts, another in the same state decrypts, message after message.
use net_copy.Common.{
  ℕ, zero, suc, ◌+◌, ◌≡◌, refl, ap, ◌∙◌, List, [], ◌∷◌, length, replicate, arith, false, Bool-cases,
  inl, inr,
}
use net_copy.Crypto.Stream.Laws.{xor_blocks_keeps, xor_blocks_twice, length-xor_blocks}
use net_copy.Crypto.XorCipher.{
  XorCipher, key_size, chunk_size, key_byte, update_key, process, derive_key, derive_rounds,
  xor_into, mix_from, all_zero, or_pattern,
}

length-process : (c : XorCipher) (bytes : List ℕ) → length (process c bytes).0 ≡ length bytes
unfolding process
length-process c bytes =
    length-xor_blocks chunk_size key_byte update_key (omega arith) (length bytes) c bytes

-- A cipher in the state in which a message was encrypted decrypts it, and both ciphers are then in
-- the same state again.
pub process_twice :
    (c : XorCipher) (bytes : List ℕ) → process c (process c bytes).0 ≡ (bytes, (process c bytes).1)
unfolding process
process_twice c bytes =
    rw (length-xor_blocks chunk_size key_byte update_key (omega arith) (length bytes) c bytes) (
      xor_blocks_twice chunk_size key_byte update_key (omega arith) (length bytes) c bytes
        (omega arith))

base_key-update_key : (c : XorCipher) → (update_key c).base_key ≡ c.base_key
unfolding update_key
base_key-update_key c = refl

pub base_key-process : (c : XorCipher) (bytes : List ℕ) → (process c bytes).1.base_key ≡ c.base_key
unfolding process
base_key-process c bytes =
    xor_blocks_keeps chunk_size key_byte update_key (omega arith) (λ d. d.base_key)
      base_key-update_key (length bytes) c bytes

length-xor_into : (ks bs : List ℕ) → length (xor_into ks bs) ≡ length ks
unfolding xor_into
length-xor_into [] bs = refl
length-xor_into (k ∷ ks) [] = refl
length-xor_into (k ∷ ks) (b ∷ bs) = ap suc (length-xor_into ks bs)

length-derive_rounds :
    (n round : ℕ) (bytes key : List ℕ) → length (derive_rounds n round bytes key) ≡ length key
unfolding derive_rounds
length-derive_rounds zero round bytes key = refl
length-derive_rounds (suc n) round bytes key =
    length-derive_rounds n (round + 1) (mix_from round 0 bytes)
      (xor_into key (mix_from round 0 bytes))
    ∙ length-xor_into key (mix_from round 0 bytes)

or_pattern-IsKey :
    (key : List ℕ)
    → length key ≡ key_size
    → (length (or_pattern key) ≡ key_size) × (all_zero (or_pattern key) ≡ false)
or_pattern-IsKey key h = elim (Bool-cases (all_zero key)) [
  | inl y ↦ rw y (refl, unfold all_zero in refl)
  | inr n ↦ rw n (h, n)
]

-- Whatever the password, the derived key has 32 bytes and is not all zeros.
pub derive_key-IsKey :
    (password : List ℕ)
    → (length (derive_key password) ≡ key_size) × (all_zero (derive_key password) ≡ false)
derive_key-IsKey password =
    unfold derive_key in
    or_pattern-IsKey _ (length-derive_rounds 1000 0 password (replicate key_size 0))

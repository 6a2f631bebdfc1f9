-- ===== src/Crypto/ChaCha20Poly1305.antt =====
-- The class ChaCha20Poly1305 of src/crypto/chacha20_poly1305.cpp, and HighSecurityEngine of
-- src/crypto/crypto_engine.cpp, which puts the nonce in front. Random nonces are arguments.
pub mod Laws
use net_copy.Common.{
  ℕ, zero, suc, ◌+◌, ◌-◌, ◌%◌, ◌^◌, List, [], ◌∷◌, ◌++◌, length, take, drop, replicate, Bool, true,
  false, ◌&&◌, ◌==◌, ltb, not, if◌then◌else◌, Result, ok, throw, crypto_exception, runtime_error,
  same_bytes,
}
use net_copy.Crypto.ChaCha20
use net_copy.Crypto.Poly1305
use net_copy.Protocol.Wire.{write_uint64}

abbrev pub nonce_size : ℕ
nonce_size = 12

abbrev pub tag_size : ℕ
tag_size = 16

pub record ChaCha20Poly1305 : Type 0 where
  pub key : List ℕ

-- The one-time key of Poly1305: the keystream of counter 0.
abbrev poly_key : List ℕ → List ℕ → List ℕ
poly_key key nonce = ChaCha20.encrypt (ChaCha20.init key nonce 0) (replicate 32 0)

-- Two `uint64_t` as `memcpy` lays them out on a little-endian machine.
abbrev lengths : List ℕ → List ℕ → List ℕ
lengths ad text = write_uint64 (length ad % 2 ^ 64) ++ write_uint64 (length text % 2 ^ 64)

unfoldable pub compute_tag : List ℕ → List ℕ → List ℕ → List ℕ → List ℕ
compute_tag key nonce ad ciphertext = Poly1305.finalize (
    Poly1305.update
      (Poly1305.update (Poly1305.update (Poly1305.init (poly_key key nonce)) ad) ciphertext)
      (lengths ad ciphertext))

unfoldable pub encrypt : ChaCha20Poly1305 → List ℕ → List ℕ → List ℕ → List ℕ
encrypt c plaintext nonce ad =
    let ciphertext = ChaCha20.encrypt (ChaCha20.init c.key nonce 1) plaintext in
    ciphertext ++ compute_tag c.key nonce ad ciphertext

unfoldable pub decrypt : ChaCha20Poly1305 → List ℕ → List ℕ → List ℕ → List ℕ → Result (List ℕ)
decrypt c ciphertext nonce tag ad =
    let actual = take (length ciphertext - tag_size) ciphertext in
    if ltb (length ciphertext) tag_size
    then throw (crypto_exception "Ciphertext too short")
    else if not (same_bytes (compute_tag c.key nonce ad actual) tag)
    then throw (crypto_exception "Authentication failed")
    else ok (ChaCha20.encrypt (ChaCha20.init c.key nonce 1) actual)

-- HighSecurityEngine::encrypt, with the nonce that `generate_nonce` drew.
unfoldable pub engine_encrypt : ChaCha20Poly1305 → List ℕ → List ℕ → List ℕ
engine_encrypt c nonce plaintext = nonce ++ encrypt c plaintext nonce []

-- HighSecurityEngine::decrypt
unfoldable pub engine_decrypt : ChaCha20Poly1305 → List ℕ → Result (List ℕ)
engine_decrypt c bytes =
    let encrypted = drop nonce_size bytes in
    if ltb (length bytes) (nonce_size + tag_size)
    then throw (runtime_error "Encrypted message too short")
    else decrypt c encrypted (take nonce_size bytes) (drop (length encrypted - tag_size) encrypted)
        []

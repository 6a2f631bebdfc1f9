-- ===== src/Crypto/MlKem.antt =====
-- The class MlKem of src/crypto/mlkem.cpp, over liboqs: what `OQS_KEM_new` gives is a parameter.
use net_copy.Common.{
  ℕ, List, length, Option, some, none, ◌==◌, not, if◌then◌else◌, Result, ok, throw,
  crypto_exception,
}

pub data MlKemLevel : Type 0 where
  mlkem_512 : MlKemLevel
  mlkem_768 : MlKemLevel
  mlkem_1024 : MlKemLevel

-- `OQS_KEM`, with its functions on this object. A function returns none where its status is no
-- success; the randomness of `OQS_KEM_encaps` is inside of it.
pub record OqsKem : Type 0 where
  pub length_public_key : ℕ
  pub length_secret_key : ℕ
  pub length_ciphertext : ℕ
  pub encaps : List ℕ → Option (List ℕ × List ℕ)
  pub decaps : List ℕ → List ℕ → Option (List ℕ)

pub record MlKemEncapResult : Type 0 where
  pub ciphertext : List ℕ
  pub shared_secret : List ℕ

unfoldable pub encaps_result : Option (List ℕ × List ℕ) → Result MlKemEncapResult
encaps_result none = throw (crypto_exception "ML-KEM: OQS_KEM_encaps failed")
encaps_result (some p) = ok (record { ciphertext = p.0; shared_secret = p.1 })

unfoldable pub encapsulate : Option OqsKem → List ℕ → Result MlKemEncapResult
unfolding encaps_result
encapsulate none public_key = throw (crypto_exception "ML-KEM: OQS_KEM_new failed for level ")
encapsulate (some kem) public_key =
    if not (length public_key == kem.length_public_key)
    then throw (crypto_exception "ML-KEM: public key size mismatch")
    else encaps_result (kem.encaps public_key)

unfoldable pub decaps_result : Option (List ℕ) → Result (List ℕ)
decaps_result none = throw (crypto_exception "ML-KEM: OQS_KEM_decaps failed")
decaps_result (some shared_secret) = ok shared_secret

unfoldable pub decapsulate : Option OqsKem → List ℕ → List ℕ → Result (List ℕ)
unfolding decaps_result
decapsulate none private_key ciphertext =
    throw (crypto_exception "ML-KEM: OQS_KEM_new failed for level ")
decapsulate (some kem) private_key ciphertext =
    if not (length private_key == kem.length_secret_key)
    then throw (crypto_exception "ML-KEM: private key size mismatch")
    else if not (length ciphertext == kem.length_ciphertext)
    then throw (crypto_exception "ML-KEM: ciphertext size mismatch")
    else decaps_result (kem.decaps private_key ciphertext)

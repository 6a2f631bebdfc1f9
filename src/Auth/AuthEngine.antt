-- ===== src/Auth/AuthEngine.antt =====
-- The class AuthEngine of src/auth/auth_engine.cpp and include/auth/auth_engine.h, and the proof that
-- the client computes in src/client/client.cpp. Random bytes are an argument.
pub mod Agreement
pub mod Guards
use net_copy.Common.{
  ℕ, List, [], ◌∷◌, ◌++◌, Bool, not, Option, some, none, Result, ok, throw, and_then,
  auth_exception, if◌then◌else◌,
}
use net_copy.Auth.ConstantTime.{constant_time_equal}
use net_copy.Auth.UserEntry.{UserEntry, has_auth_method}
use net_copy.Auth.UserDb.{UserDb, find_user, is_empty}
use net_copy.Crypto.Hex.{hex_to_bytes}
use net_copy.Crypto.MlKem.{
  MlKemLevel, mlkem_768, OqsKem, MlKemEncapResult, encapsulate, decapsulate,
}
use net_copy.Crypto.Pbkdf2.{pbkdf2_sha3_256}
use net_copy.Crypto.Sha3.{sha3_256}

pub data AuthMethod : Type 0 where
  method_none : AuthMethod
  method_password : AuthMethod
  method_mlkem : AuthMethod

pub record AuthChallengeData : Type 0 where
  pub method : AuthMethod
  pub challenge_nonce : List ℕ
  pub salt_hex : List ℕ
  pub pbkdf2_iterations : ℕ
  pub kem_ciphertext : List ℕ
  pub kem_nonce : List ℕ
  pub level : MlKemLevel
  pub expected_proof : List ℕ
  pub kem_shared_secret : List ℕ

-- A challenge with the fields' initial values.
abbrev blank : AuthMethod → AuthChallengeData
blank method = record {
  method = method;
  challenge_nonce = [];
  salt_hex = [];
  pbkdf2_iterations = 0;
  kem_ciphertext = [];
  kem_nonce = [];
  level = mlkem_768;
  expected_proof = [];
  kem_shared_secret = [];
}

-- "password" and "mlkem"
abbrev pub password_name : List ℕ
password_name = 112 ∷ 97 ∷ 115 ∷ 115 ∷ 119 ∷ 111 ∷ 114 ∷ 100 ∷ []

abbrev pub mlkem_name : List ℕ
mlkem_name = 109 ∷ 108 ∷ 107 ∷ 101 ∷ 109 ∷ []

-- The fields that the two branches set.
abbrev pub password_data : UserEntry → List ℕ → List ℕ → AuthChallengeData
password_data user nonce stored_hash = record (blank method_password) {
  challenge_nonce = nonce;
  salt_hex = user.salt_hex;
  pbkdf2_iterations = user.pbkdf2_iterations;
  expected_proof = sha3_256 (stored_hash ++ nonce);
}

abbrev pub mlkem_data : UserEntry → List ℕ → MlKemEncapResult → AuthChallengeData
mlkem_data user nonce encap_result = record (blank method_mlkem) {
  level = user.mlkem_level;
  kem_ciphertext = encap_result.ciphertext;
  kem_nonce = nonce;
  kem_shared_secret = encap_result.shared_secret;
  expected_proof = sha3_256 (encap_result.shared_secret ++ nonce);
}

-- The branch of PASSWORD.
unfoldable pub password_challenge : UserEntry → List ℕ → Result AuthChallengeData
password_challenge user nonce =
    if not (has_auth_method user password_name)
    then throw (auth_exception "Password auth not enabled for user: ")
    else and_then (hex_to_bytes user.password_hash_hex)
        (λ stored_hash. ok (password_data user nonce stored_hash))

-- The branch of MLKEM.
unfoldable pub mlkem_challenge :
    (MlKemLevel → Option OqsKem) → UserEntry → List ℕ → Result AuthChallengeData
mlkem_challenge kem_new user nonce =
    if not (has_auth_method user mlkem_name)
    then throw (auth_exception "ML-KEM auth not enabled for user: ")
    else if is_empty user.mlkem_public_key
    then throw (auth_exception "No ML-KEM public key registered for user: ")
    else and_then (encapsulate (kem_new user.mlkem_level) user.mlkem_public_key)
        (λ encap_result. ok (mlkem_data user nonce encap_result))

unfoldable pub challenge_for :
    (MlKemLevel → Option OqsKem) → Option UserEntry → AuthMethod → List ℕ → Result AuthChallengeData
challenge_for kem_new none method nonce = throw (auth_exception "User not found: ")
challenge_for kem_new (some user) method_none nonce =
    throw (auth_exception "Unsupported auth method")
challenge_for kem_new (some user) method_password nonce = password_challenge user nonce
challenge_for kem_new (some user) method_mlkem nonce = mlkem_challenge kem_new user nonce

unfoldable pub prepare_challenge :
    (MlKemLevel → Option OqsKem) → UserDb → List ℕ → AuthMethod → List ℕ → Result AuthChallengeData
prepare_challenge kem_new db name method nonce =
    challenge_for kem_new (find_user db name) method nonce

unfoldable pub verify_response : AuthChallengeData → List ℕ → Bool
verify_response challenge client_proof = constant_time_equal client_proof challenge.expected_proof

-- The client's proof from its password.
unfoldable pub password_proof : AuthChallengeData → List ℕ → Result (List ℕ)
password_proof challenge password = and_then (hex_to_bytes challenge.salt_hex) (λ salt.
    let dk = pbkdf2_sha3_256 password salt challenge.pbkdf2_iterations 32 in
    ok (sha3_256 (dk ++ challenge.challenge_nonce)))

-- The client's proof from its private key, of the level that the key file names.
unfoldable pub mlkem_proof : Option OqsKem → AuthChallengeData → List ℕ → Result (List ℕ)
mlkem_proof kem challenge private_key =
    and_then (decapsulate kem private_key challenge.kem_ciphertext)
      (λ shared_secret. ok (sha3_256 (shared_secret ++ challenge.kem_nonce)))

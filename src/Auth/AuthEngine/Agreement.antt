-- ===== src/Auth/AuthEngine/Agreement.antt =====
-- A client with the right secret passes.
use net_copy.Common.{
  ℕ, ◌<◌, ◌≡◌, ◌↔◌, refl, ap, ◌∙◌, List, ◌++◌, length, true, Option, some, Result, ok, All, IsByte,
  eq→eqb,
}
use net_copy.Auth.ConstantTime.{constant_time_equal_lem, constant_time_equal_self}
use net_copy.Auth.UserEntry.{UserEntry, has_auth_method}
use net_copy.Auth.UserDb.{UserDb, find_user, update_password, with_password}
use net_copy.Auth.UserDb.Passwords.{is_empty-lem, find_user-change_user}
use net_copy.Auth.AuthEngine.{
  method_password, method_mlkem, AuthChallengeData, password_data, mlkem_data, password_name,
  mlkem_name, prepare_challenge, verify_response, password_proof, mlkem_proof, challenge_for,
  password_challenge, mlkem_challenge,
}
use net_copy.Crypto.Hex.RoundTrip.{hex_to_bytes-bytes_to_hex}
use net_copy.Crypto.MlKem.{
  MlKemLevel, OqsKem, encapsulate, decapsulate, encaps_result, decaps_result,
}
use net_copy.Crypto.Pbkdf2.{pbkdf2_sha3_256}
use net_copy.Crypto.Pbkdf2.Bytes.{pbkdf2_sha3_256-IsByte}
use net_copy.Crypto.Sha3.{sha3_256}

-- The server accepts the expected proof and no other.
pub verify_response_lem :
    (challenge : AuthChallengeData) (proof : List ℕ)
    → (verify_response challenge proof ≡ true) ↔ (proof ≡ challenge.expected_proof)
unfolding verify_response
verify_response_lem challenge proof = constant_time_equal_lem proof challenge.expected_proof

-- A challenge, and a proof of it that the server accepts.
pub record Passes (challenged : Result AuthChallengeData)
    (prove : AuthChallengeData → Result (List ℕ)) : Type 0 where
  pub challenge : AuthChallengeData
  pub proof : List ℕ
  pub sent : challenged ≡ ok challenge
  pub proved : prove challenge ≡ ok proof
  pub accepted : verify_response challenge proof ≡ true

-- The challenge of a user whose password was set.
entry-Passes :
    (user : UserEntry) (password salt nonce : List ℕ)
    → All IsByte salt
    → has_auth_method user password_name ≡ true
    → Passes
        (password_challenge (with_password password salt user) nonce)
        (λ c. password_proof c password)
unfolding password_challenge password_proof verify_response
entry-Passes user password salt nonce hs enabled =
    let key = pbkdf2_sha3_256 password salt 200000 32 in
    record {
      challenge = password_data (with_password password salt user) nonce key;
      proof = sha3_256 (key ++ nonce);
      sent =
          rw
            (
              enabled,
              hex_to_bytes-bytes_to_hex key (pbkdf2_sha3_256-IsByte password salt 200000 32),
            )
            refl;
      proved = rw (hex_to_bytes-bytes_to_hex salt hs) refl;
      accepted = constant_time_equal_self (sha3_256 (key ++ nonce));
    }

-- A user whose password was set and who may use a password gets a challenge, whatever the nonce, and
-- a client that knows the password computes a proof from it that the server accepts.
pub password-Passes :
    (kem_new : MlKemLevel → Option OqsKem) (db after : UserDb) (name password salt nonce : List ℕ)
    (user : UserEntry)
    → All IsByte salt
    → update_password db name password salt ≡ ok after
    → find_user db name ≡ some user
    → has_auth_method user password_name ≡ true
    → Passes
        (prepare_challenge kem_new after name method_password nonce)
        (λ c. password_proof c password)
unfolding prepare_challenge challenge_for update_password
password-Passes kem_new db after name password salt nonce user hs h found enabled =
    let (u, e, s) =
      find_user-change_user db after (with_password password salt) name (λ v. refl) h in
    let same : u ≡ user = cc (e, found) in
    rw s (
      entry-Passes u password salt nonce hs
        (ap (λ v. has_auth_method v password_name) same ∙ enabled))

-- A user with a public key who may use ML-KEM gets a challenge, and a client whose private key opens
-- what was encapsulated for the public key computes a proof that the server accepts, provided that
-- liboqs knows the level and that both keys and the ciphertext have the sizes of the level.
pub mlkem-Passes :
    (kem_new : MlKemLevel → Option OqsKem) (db : UserDb) (name nonce private_key : List ℕ)
    (user : UserEntry) (kem : OqsKem) (ciphertext shared_secret : List ℕ)
    → find_user db name ≡ some user
    → has_auth_method user mlkem_name ≡ true
    → kem_new user.mlkem_level ≡ some kem
    → 0 < length user.mlkem_public_key
    → length user.mlkem_public_key ≡ kem.length_public_key
    → length private_key ≡ kem.length_secret_key
    → length ciphertext ≡ kem.length_ciphertext
    → kem.encaps user.mlkem_public_key ≡ some (ciphertext, shared_secret)
    → kem.decaps private_key ciphertext ≡ some shared_secret
    → Passes
        (prepare_challenge kem_new db name method_mlkem nonce)
        (λ c. mlkem_proof (some kem) c private_key)
unfolding prepare_challenge challenge_for mlkem_challenge mlkem_proof verify_response encapsulate
    encaps_result decapsulate decaps_result
mlkem-Passes kem_new db name nonce private_key user kem ciphertext shared_secret found enabled level
      filled size_pk size_sk size_ct enc dec =
    record {
      challenge =
          mlkem_data user nonce (record { ciphertext = ciphertext; shared_secret = shared_secret });
      proof = sha3_256 (shared_secret ++ nonce);
      sent =
          rw
            (
              found,
              enabled,
              is_empty-lem user.mlkem_public_key filled,
              level,
              eq→eqb (length user.mlkem_public_key) kem.length_public_key size_pk,
              enc,
            )
            refl;
      proved =
          rw
            (
              eq→eqb (length private_key) kem.length_secret_key size_sk,
              eq→eqb (length ciphertext) kem.length_ciphertext size_ct,
              dec,
            )
            refl;
      accepted = constant_time_equal_self (sha3_256 (shared_secret ++ nonce));
    }

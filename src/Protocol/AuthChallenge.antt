-- ===== src/Protocol/AuthChallenge.antt =====
-- AuthChallenge of include/protocol/message.h and src/protocol/message.cpp.
use net_copy.Common.{ℕ, List, [], ◌∷◌}
use net_copy.Protocol.Reader.{
  Reader, Reads, Yields, ◌>>=◌, return, concat, seq, return-Reads, seq-Yields, return-Yields,
}
use net_copy.Protocol.Wire.{
  IsU8, IsU32, IsSized, write_uint8, write_uint32, write_bytes, write_string, read_uint8,
  read_uint32, read_bytes, read_string,
}
use net_copy.Protocol.Wire.Laws.{uint8-Reads, uint32-Reads, bytes-Reads, string-Reads}
use net_copy.Protocol.Wire.Ranges.{uint8-Yields, uint32-Yields, bytes-Yields, string-Yields}

pub record AuthChallenge : Type 0 where
  pub method : ℕ
  pub challenge_nonce : List ℕ
  pub salt_hex : List ℕ
  pub pbkdf2_iterations : ℕ
  pub kem_ciphertext : List ℕ
  pub mlkem_level_str : List ℕ
  pub kem_nonce : List ℕ

-- Every field is in the range of its C++ type.
pub record IsValid (m : AuthChallenge) : Type 0 where
  pub method : IsU8 m.method
  pub challenge_nonce : IsSized m.challenge_nonce
  pub salt_hex : IsSized m.salt_hex
  pub pbkdf2_iterations : IsU32 m.pbkdf2_iterations
  pub kem_ciphertext : IsSized m.kem_ciphertext
  pub mlkem_level_str : IsSized m.mlkem_level_str
  pub kem_nonce : IsSized m.kem_nonce

unfoldable pub serialize_payload : AuthChallenge → List ℕ
serialize_payload m = concat (
    write_uint8 m.method
    ∷ write_bytes m.challenge_nonce
    ∷ write_string m.salt_hex
    ∷ write_uint32 m.pbkdf2_iterations
    ∷ write_bytes m.kem_ciphertext
    ∷ write_string m.mlkem_level_str
    ∷ write_bytes m.kem_nonce
    ∷ [])

unfoldable pub read_payload : Reader AuthChallenge
read_payload = do
  method ← read_uint8 "AuthChallenge: missing method byte"
  challenge_nonce ← read_bytes
  salt_hex ← read_string
  pbkdf2_iterations ← read_uint32
  kem_ciphertext ← read_bytes
  mlkem_level_str ← read_string
  kem_nonce ← read_bytes
  return (record {
    method = method;
    challenge_nonce = challenge_nonce;
    salt_hex = salt_hex;
    pbkdf2_iterations = pbkdf2_iterations;
    kem_ciphertext = kem_ciphertext;
    mlkem_level_str = mlkem_level_str;
    kem_nonce = kem_nonce;
  })

pub payload-Reads : (m : AuthChallenge) → IsValid m → Reads read_payload (serialize_payload m) m
unfolding serialize_payload read_payload
payload-Reads m v = seq _ (uint8-Reads _ _ v.method) (
    seq _ (bytes-Reads _ v.challenge_nonce) (
      seq _ (string-Reads _ v.salt_hex) (
        seq _ (uint32-Reads _ v.pbkdf2_iterations) (
          seq _ (bytes-Reads _ v.kem_ciphertext) (
            seq _ (string-Reads _ v.mlkem_level_str)
              (seq _ (bytes-Reads _ v.kem_nonce) (return-Reads _)))))))

pub payload-Yields : Yields IsValid read_payload
unfolding read_payload
payload-Yields = seq-Yields IsU8 (uint8-Yields _) λ method h0.
    seq-Yields IsSized bytes-Yields λ challenge_nonce h1.
      seq-Yields IsSized string-Yields λ salt_hex h2.
        seq-Yields IsU32 uint32-Yields λ pbkdf2_iterations h3.
          seq-Yields IsSized bytes-Yields λ kem_ciphertext h4.
            seq-Yields IsSized string-Yields λ mlkem_level_str h5.
              seq-Yields IsSized bytes-Yields λ kem_nonce h6. return-Yields IsValid _ (record {
                method = h0;
                challenge_nonce = h1;
                salt_hex = h2;
                pbkdf2_iterations = h3;
                kem_ciphertext = h4;
                mlkem_level_str = h5;
                kem_nonce = h6;
              })

-- ===== src/Crypto/Tests.antt =====
-- Runs of the ciphers and the digest, and the theorems at these inputs.
use net_copy.Common.{ℕ, ◌≡◌, refl, List, [], ◌∷◌, length, take, replicate, ok, false, arith}
use net_copy.Crypto.ChaCha20
use net_copy.Crypto.Poly1305
use net_copy.Crypto.ChaCha20Poly1305.{ChaCha20Poly1305, engine_encrypt, engine_decrypt}
use net_copy.Crypto.ChaCha20Poly1305.Laws.{engine_decrypt-encrypt, engine_decrypt_sound}
use net_copy.Crypto.Hex.{bytes_to_hex, hex_to_bytes}
use net_copy.Crypto.Hex.RoundTrip.{hex_to_bytes-bytes_to_hex}
use net_copy.Crypto.Sha3.{
  absorb_blocks, finish, absorb, pad, squeeze, sha3_256, finalize, new_hasher,
}
use net_copy.Crypto.Sha3.Streaming.{finalize-update_all, update_all, joined}
use net_copy.Crypto.XorCipher
use net_copy.Crypto.XorCipher.Derivation.{derive_key-length}
use net_copy.Crypto.XorCipher.Laws.{derive_key-IsKey}
use net_copy.Crypto.FastSecurityEngine
use net_copy.Crypto.Keccak.{keccak_f1600}

-- The key 0, 1, …, 31 of RFC 8439, 2.3.2, with its nonce.
abbrev test_key : List ℕ
test_key =
    0 ∷ 1 ∷ 2 ∷ 3 ∷ 4 ∷ 5 ∷ 6 ∷ 7 ∷ 8 ∷ 9 ∷ 10 ∷ 11 ∷ 12 ∷ 13 ∷ 14 ∷ 15 ∷ 16 ∷ 17 ∷ 18 ∷ 19 ∷ 20
    ∷ 21 ∷ 22 ∷ 23 ∷ 24 ∷ 25 ∷ 26 ∷ 27 ∷ 28 ∷ 29 ∷ 30 ∷ 31 ∷ []

abbrev test_nonce : List ℕ
test_nonce = 0 ∷ 0 ∷ 0 ∷ 9 ∷ 0 ∷ 0 ∷ 0 ∷ 0x4a ∷ 0 ∷ 0 ∷ 0 ∷ 0 ∷ []

-- The first bytes of the block of RFC 8439, 2.3.2.
keystream_test :
    take 8 (ChaCha20.generate_keystream (ChaCha20.init test_key test_nonce 1))
    ≡ 0x10 ∷ 0xf1 ∷ 0xe7 ∷ 0xe4 ∷ 0xd1 ∷ 0x3b ∷ 0x59 ∷ 0x15 ∷ []
unfolding ChaCha20.generate_keystream ChaCha20.init
keystream_test = refl

-- The first bytes of the digest of "abc" in FIPS 202's examples.
sha3_256_test :
    take 8 (sha3_256 (97 ∷ 98 ∷ 99 ∷ []))
    ≡ 0x3a ∷ 0x98 ∷ 0x5d ∷ 0xa7 ∷ 0x4f ∷ 0xe2 ∷ 0x25 ∷ 0xb2 ∷ []
unfolding sha3_256 absorb_blocks finish absorb pad squeeze keccak_f1600
sha3_256_test = refl

abbrev test_cipher : ChaCha20Poly1305
test_cipher = record { key = test_key }

engine_decrypt-encrypt_example :
    engine_decrypt test_cipher (engine_encrypt test_cipher test_nonce (104 ∷ 105 ∷ []))
    ≡ ok (104 ∷ 105 ∷ [])
engine_decrypt-encrypt_example = engine_decrypt-encrypt test_cipher test_nonce (104 ∷ 105 ∷ []) refl

engine_decrypt_sound_example :
    engine_encrypt test_cipher test_nonce (104 ∷ 105 ∷ [])
    ≡ engine_encrypt test_cipher
        (take 12 (engine_encrypt test_cipher test_nonce (104 ∷ 105 ∷ [])))
        (104 ∷ 105 ∷ [])
engine_decrypt_sound_example =
    engine_decrypt_sound test_cipher (engine_encrypt test_cipher test_nonce (104 ∷ 105 ∷ []))
      (104 ∷ 105 ∷ []) engine_decrypt-encrypt_example

-- Two pieces of which the second begins in the middle of a block.
abbrev test_parts : List (List ℕ)
test_parts = (replicate 100 7) ∷ (replicate 200 8) ∷ []

finalize-update_all_example :
    finalize (update_all new_hasher test_parts) ≡ sha3_256 (joined test_parts)
finalize-update_all_example = finalize-update_all test_parts

hex_to_bytes-bytes_to_hex_example :
    hex_to_bytes (bytes_to_hex (0 ∷ 171 ∷ 255 ∷ [])) ≡ ok (0 ∷ 171 ∷ 255 ∷ [])
hex_to_bytes-bytes_to_hex_example =
    hex_to_bytes-bytes_to_hex (0 ∷ 171 ∷ 255 ∷ []) (omega arith, (omega arith, (omega arith, tt)))

-- A cipher that has processed messages before.
abbrev used_cipher : XorCipher.XorCipher
used_cipher = record { base_key = test_key; current_key = replicate 32 5; round_counter = 3 }

derive_key-IsKey_example :
    (length (XorCipher.derive_key (112 ∷ 119 ∷ [])) ≡ 32)
    × (XorCipher.all_zero (XorCipher.derive_key (112 ∷ 119 ∷ [])) ≡ false)
derive_key-IsKey_example = derive_key-IsKey (112 ∷ 119 ∷ [])

decrypt-encrypt_example :
    (FastSecurityEngine.decrypt
      (XorCipher.init test_key)
      (FastSecurityEngine.encrypt used_cipher (1 ∷ 2 ∷ 3 ∷ [])).0).0
    ≡ 1 ∷ 2 ∷ 3 ∷ []
decrypt-encrypt_example =
    FastSecurityEngine.decrypt-encrypt used_cipher (XorCipher.init test_key) (1 ∷ 2 ∷ 3 ∷ []) refl

-- "ab" and "xy"
derive_key-length_example :
    XorCipher.derive_key (97 ∷ 98 ∷ []) ≡ XorCipher.derive_key (120 ∷ 121 ∷ [])
derive_key-length_example = derive_key-length (97 ∷ 98 ∷ []) (120 ∷ 121 ∷ []) refl

-- The key and the message of RFC 8439, 2.5.2, whose tag there begins with a8, 06, 1d, c1.
abbrev poly_test_key : List ℕ
poly_test_key =
    0x85 ∷ 0xd6 ∷ 0xbe ∷ 0x78 ∷ 0x57 ∷ 0x55 ∷ 0x6d ∷ 0x33 ∷ 0x7f ∷ 0x44 ∷ 0x52 ∷ 0xfe ∷ 0x42 ∷ 0xd5
    ∷ 0x06 ∷ 0xa8 ∷ 0x01 ∷ 0x03 ∷ 0x80 ∷ 0x8a ∷ 0xfb ∷ 0x0d ∷ 0xb2 ∷ 0xfd ∷ 0x4a ∷ 0xbf ∷ 0xf6
    ∷ 0xaf ∷ 0x41 ∷ 0x49 ∷ 0xf5 ∷ 0x1b ∷ []

poly_test :
    take 4 (
      Poly1305.finalize (
        Poly1305.update (Poly1305.init poly_test_key) (
          67 ∷ 114 ∷ 121 ∷ 112 ∷ 116 ∷ 111 ∷ 103 ∷ 114 ∷ 97 ∷ 112 ∷ 104 ∷ 105 ∷ 99 ∷ 32 ∷ 70 ∷ 111
          ∷ 114 ∷ 117 ∷ 109 ∷ 32 ∷ 82 ∷ 101 ∷ 115 ∷ 101 ∷ 97 ∷ 114 ∷ 99 ∷ 104 ∷ 32 ∷ 71 ∷ 114 ∷ 111
          ∷ 117 ∷ 112 ∷ [])))
    ≡ 0x15 ∷ 0x00 ∷ 0x72 ∷ 0x5a ∷ []
unfolding Poly1305.finalize Poly1305.update Poly1305.init
poly_test = refl

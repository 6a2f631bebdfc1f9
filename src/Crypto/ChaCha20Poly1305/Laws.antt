-- ===== src/Crypto/ChaCha20Poly1305/Laws.antt =====
-- The engine decrypts exactly what it encrypts.
use net_copy.Common.{
  ℕ, ◌+◌, ◌-◌, ◌≡◌, ◌≤◌, refl, ap, sym, ◌∙◌, List, [], ◌++◌, length, length-append, same_bytes,
  same_bytes_self, same_bytes→eq, take, drop, take-append_exact, drop-append_exact, ltb-false→le,
  crypto_exception, length-take, length-drop, take-append-drop, Bool, true, false, ok, throw, arith,
  ltb, not, Bool-cases, inl, inr, ok-injective, if◌then◌else◌,
}
use net_copy.Crypto.Stream.{xor_blocks}
use net_copy.Crypto.Stream.Laws.{xor_blocks_twice, length-xor_blocks}
use net_copy.Crypto.ChaCha20
use net_copy.Crypto.Poly1305
use net_copy.Crypto.ChaCha20Poly1305.{
  ChaCha20Poly1305, nonce_size, tag_size, compute_tag, encrypt, decrypt, engine_encrypt,
  engine_decrypt,
}

length-encrypt :
    (s : ChaCha20.State) (bytes : List ℕ) → length (ChaCha20.encrypt s bytes) ≡ length bytes
unfolding ChaCha20.encrypt
length-encrypt s bytes =
    length-xor_blocks ChaCha20.block_size ChaCha20.keystream_byte ChaCha20.increment (omega arith)
      (length bytes) s bytes

pub encrypt_twice :
    (s : ChaCha20.State) (bytes : List ℕ) → ChaCha20.encrypt s (ChaCha20.encrypt s bytes) ≡ bytes
unfolding ChaCha20.encrypt
encrypt_twice s bytes =
    ap
      (λ n.
        (xor_blocks ChaCha20.block_size ChaCha20.keystream_byte ChaCha20.increment n s
          (ChaCha20.encrypt s bytes)).0)
      (length-encrypt s bytes)
    ∙ ap (λ p. p.0)
        (xor_blocks_twice ChaCha20.block_size ChaCha20.keystream_byte ChaCha20.increment
          (omega arith) (length bytes) s bytes (omega arith))

length-compute_tag :
    (key nonce ad text : List ℕ) → length (compute_tag key nonce ad text) ≡ tag_size
unfolding compute_tag Poly1305.finalize
length-compute_tag key nonce ad text = refl

-- What `decrypt` does with a ciphertext that is split before its tag.
decrypt_parts :
    (c : ChaCha20Poly1305) (text nonce tag ad : List ℕ)
    → length tag ≡ tag_size
    → decrypt c (text ++ tag) nonce tag ad ≡ (
        if not (same_bytes (compute_tag c.key nonce ad text) tag)
        then throw (crypto_exception "Authentication failed")
        else ok (ChaCha20.encrypt (ChaCha20.init c.key nonce 1) text))
unfolding decrypt
decrypt_parts c text nonce tag ad h =
    rw (length-append text tag, h, take-append_exact (length text + 16 - 16) text tag (omega arith))
      (elim (Bool-cases (ltb (length text + 16) 16)) [
        | inl y ↦ absurd (ground arith)
        | inr n ↦ rw n refl
      ])

-- What `engine_decrypt` does with its three parts.
engine_decrypt_parts :
    (c : ChaCha20Poly1305) (nonce text tag : List ℕ)
    → length nonce ≡ nonce_size
    → length tag ≡ tag_size
    → engine_decrypt c (nonce ++ (text ++ tag)) ≡ (
        if not (same_bytes (compute_tag c.key nonce [] text) tag)
        then throw (crypto_exception "Authentication failed")
        else ok (ChaCha20.encrypt (ChaCha20.init c.key nonce 1) text))
unfolding engine_decrypt
engine_decrypt_parts c nonce text tag hn ht =
    rw
      (
        length-append nonce (text ++ tag),
        drop-append_exact 12 nonce (text ++ tag) hn,
        take-append_exact 12 nonce (text ++ tag) hn,
        length-append text tag,
        hn,
        ht,
        drop-append_exact (length text + 16 - 16) text tag (omega arith),
      )
      (elim (Bool-cases (ltb (12 + (length text + 16)) 28)) [
        | inl y ↦ absurd (ground arith)
        | inr n ↦ rw n (decrypt_parts c text nonce tag [] ht)
      ])

-- The engine reads back every message it writes, whatever the nonce.
pub engine_decrypt-encrypt :
    (c : ChaCha20Poly1305) (nonce plaintext : List ℕ)
    → length nonce ≡ nonce_size
    → engine_decrypt c (engine_encrypt c nonce plaintext) ≡ ok plaintext
unfolding engine_encrypt encrypt
engine_decrypt-encrypt c nonce plaintext h =
    let text = ChaCha20.encrypt (ChaCha20.init c.key nonce 1) plaintext in
    engine_decrypt_parts c nonce text (compute_tag c.key nonce [] text) h
      (length-compute_tag c.key nonce [] text)
    ∙ rw (same_bytes_self (compute_tag c.key nonce [] text))
        (ap ok (encrypt_twice (ChaCha20.init c.key nonce 1) plaintext))

-- An accepted result passed the test, and is the decrypted text.
accepted :
    (same : Bool) (text plaintext : List ℕ)
    → (if not same then throw (crypto_exception "Authentication failed") else ok text)
      ≡ ok plaintext
    → (same ≡ true) × (text ≡ plaintext)
accepted true text plaintext h = (refl, ok-injective h)
accepted false text plaintext h = cc

-- A message of three parts that is accepted carries the tag of its text.
accepted_parts :
    (c : ChaCha20Poly1305) (nonce text tag plaintext : List ℕ)
    → length nonce ≡ nonce_size
    → length tag ≡ tag_size
    → engine_decrypt c (nonce ++ (text ++ tag)) ≡ ok plaintext
    → nonce ++ (text ++ tag) ≡ engine_encrypt c nonce plaintext
unfolding engine_encrypt encrypt
accepted_parts c nonce text tag plaintext hn ht h =
    let (same, opened) =
      accepted (same_bytes (compute_tag c.key nonce [] text) tag)
        (ChaCha20.encrypt (ChaCha20.init c.key nonce 1) text) plaintext
        (sym (engine_decrypt_parts c nonce text tag hn ht) ∙ h) in
    rw
      (
        ← opened,
        encrypt_twice (ChaCha20.init c.key nonce 1) text,
        same_bytes→eq (compute_tag c.key nonce [] text) tag same,
      )
      refl

-- A message that is too short throws.
short-throws :
    (c : ChaCha20Poly1305) (bytes plaintext : List ℕ)
    → engine_decrypt c bytes ≡ ok plaintext
    → nonce_size + tag_size ≤ length bytes
unfolding engine_decrypt
short-throws c bytes plaintext h = elim (Bool-cases (ltb (length bytes) 28)) [
  | inl y ↦ absurd (let h' = rw y at h in cc)
  | inr n ↦ ltb-false→le (length bytes) 28 n
]

-- Nothing but what the engine itself writes is accepted: every accepted message is the encryption
-- of what it decrypts to, under the nonce in front of it.
pub engine_decrypt_sound :
    (c : ChaCha20Poly1305) (bytes plaintext : List ℕ)
    → engine_decrypt c bytes ≡ ok plaintext
    → bytes ≡ engine_encrypt c (take nonce_size bytes) plaintext
engine_decrypt_sound c bytes plaintext h =
    let nonce = take 12 bytes in
    let rest = drop 12 bytes in
    let text = take (length rest - 16) rest in
    let tag = drop (length rest - 16) rest in
    let long = short-throws c bytes plaintext h in
    let parts : nonce ++ (text ++ tag) ≡ bytes =
      ap (λ r. nonce ++ r) (take-append-drop (length rest - 16) rest) ∙ take-append-drop 12 bytes in
    sym parts
    ∙ accepted_parts c nonce text tag plaintext (omega (arith, length-take 12 bytes))
        (omega (arith, length-drop (length rest - 16) rest, length-drop 12 bytes))
        (ap (engine_decrypt c) parts ∙ h)

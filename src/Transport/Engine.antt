-- ===== src/Transport/Engine.antt =====
-- CryptoEngine of include/crypto/crypto_engine.h: the interface of the engines, and the two that are
-- modelled.
use net_copy.Common.{ℕ, ◌≡◌, ap, List, length, Result, ok}
use net_copy.Crypto.XorCipher
use net_copy.Crypto.XorCipher.Laws.{base_key-process}
use net_copy.Crypto.FastSecurityEngine
use net_copy.Crypto.ChaCha20Poly1305.{ChaCha20Poly1305, nonce_size, engine_encrypt, engine_decrypt}
use net_copy.Crypto.ChaCha20Poly1305.Laws.{engine_decrypt-encrypt}

-- `encrypt` takes the random bytes that it draws.
pub record CryptoEngine : Type 1 where
  pub State : Type 0
  pub encrypt : List ℕ → State → List ℕ → List ℕ × State
  pub decrypt : State → List ℕ → Result (List ℕ) × State

-- Two engines that understand each other, message after message.
pub record IsLawful (E : CryptoEngine) : Type 1 where
  pub Paired : E.State → E.State → Type 0
  pub IsRandom : List ℕ → Type 0
  pub opened :
      (random : List ℕ) (s r : E.State) (bytes : List ℕ)
      → IsRandom random
      → Paired s r
      → (E.decrypt r (E.encrypt random s bytes).0).0 ≡ ok bytes
  pub stay_paired :
      (random : List ℕ) (s r : E.State) (bytes : List ℕ)
      → IsRandom random
      → Paired s r
      → Paired (E.encrypt random s bytes).1 (E.decrypt r (E.encrypt random s bytes).0).1

-- HighSecurityEngine: one key on both sides, and a nonce for each message.
abbrev pub high_security_engine : CryptoEngine
high_security_engine = record {
  State = ChaCha20Poly1305;
  encrypt = λ random c bytes. (engine_encrypt c random bytes, c);
  decrypt = λ c bytes. (engine_decrypt c bytes, c);
}

pub high_security_laws : IsLawful high_security_engine
high_security_laws = record {
  Paired = λ s r. s ≡ r;
  IsRandom = λ random. length random ≡ nonce_size;
  opened = λ random s r bytes h e. rw (← e) (engine_decrypt-encrypt s random bytes h);
  stay_paired = λ random s r bytes h e. e;
}

-- FastSecurityEngine, which draws nothing.
abbrev pub fast_security_engine : CryptoEngine
fast_security_engine = record {
  State = XorCipher.XorCipher;
  encrypt = λ random c bytes. FastSecurityEngine.encrypt c bytes;
  decrypt = λ c bytes. let p = FastSecurityEngine.decrypt c bytes in (ok p.0, p.1);
}

pub base_key-encrypt :
    (c : XorCipher.XorCipher) (bytes : List ℕ)
    → (FastSecurityEngine.encrypt c bytes).1.base_key ≡ c.base_key
unfolding FastSecurityEngine.encrypt XorCipher.reset
base_key-encrypt c bytes = base_key-process (XorCipher.reset c) bytes

pub base_key-decrypt :
    (c : XorCipher.XorCipher) (bytes : List ℕ)
    → (FastSecurityEngine.decrypt c bytes).1.base_key ≡ c.base_key
unfolding FastSecurityEngine.decrypt XorCipher.reset
base_key-decrypt c bytes = base_key-process (XorCipher.reset c) bytes

unfoldable pub fast_security_laws : IsLawful fast_security_engine
fast_security_laws = record {
  Paired = λ s r. s.base_key ≡ r.base_key;
  IsRandom = λ random. Unit {0};
  opened = λ random s r bytes h e. ap ok (FastSecurityEngine.decrypt-encrypt s r bytes e);
  stay_paired = λ random s r bytes h e.
      rw (base_key-encrypt s bytes, base_key-decrypt r (FastSecurityEngine.encrypt s bytes).0) e;
}

-- ===== src/Crypto/FastSecurityEngine.antt =====
-- FastSecurityEngine of src/crypto/crypto_engine.cpp: the XOR cipher, started afresh for each
-- message. The engine's state is its cipher.
use net_copy.Common.{ℕ, List, ◌≡◌, ap}
use net_copy.Crypto.XorCipher
use net_copy.Crypto.XorCipher.Laws.{process_twice}

unfoldable pub encrypt : XorCipher.XorCipher → List ℕ → List ℕ × XorCipher.XorCipher
encrypt c bytes = XorCipher.process (XorCipher.reset c) bytes

unfoldable pub decrypt : XorCipher.XorCipher → List ℕ → List ℕ × XorCipher.XorCipher
decrypt c bytes = XorCipher.process (XorCipher.reset c) bytes

-- `encrypt` and `decrypt` keep the key.
reset-base_key :
    (c d : XorCipher.XorCipher) → c.base_key ≡ d.base_key → XorCipher.reset c ≡ XorCipher.reset d
unfolding XorCipher.reset
reset-base_key c d h = ap (λ k. XorCipher.init k) h

-- Two engines with one key read each other's messages, whatever either has processed before.
pub decrypt-encrypt :
    (sender receiver : XorCipher.XorCipher) (message : List ℕ)
    → sender.base_key ≡ receiver.base_key
    → (decrypt receiver (encrypt sender message).0).0 ≡ message
unfolding encrypt decrypt
decrypt-encrypt sender receiver message h =
    rw (← reset-base_key sender receiver h)
      (ap (λ p. p.0) (process_twice (XorCipher.reset sender) message))

-- ===== src/Crypto.antt =====
-- src/crypto: the ciphers.
pub mod Stream
pub mod XorCipher
pub mod Keccak
pub mod Sha3
pub mod Hex
pub mod Pbkdf2
pub mod MlKem
pub mod Words
pub mod ChaCha20
pub mod Poly1305
pub mod FastSecurityEngine
pub mod ChaCha20Poly1305
pub mod Tests

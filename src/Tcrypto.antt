-- ===== src/Tcrypto.antt =====
-- sgx-tcrypto/src/crypto.rs.
pub mod Gcm
pub mod Context
pub mod Sha256
pub mod Sha384
pub mod Sha1
pub mod Cmac
pub mod Hmac
pub mod OneCall
pub mod Lifecycle
pub mod Ecc
pub mod Rsa
pub mod Aes
pub mod Ctr
pub mod Tests

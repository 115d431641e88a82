-- ===== src/Urts/Ocalls.antt =====
-- sgx-urts/src: the calls out of the enclave that pass a function of the C library on.
pub mod Report
pub mod Told
pub mod Descriptors
pub mod Files
pub mod Sockets
pub mod System
pub mod Errno
pub mod Messages
pub mod Passwd
pub mod Tests

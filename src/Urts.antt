-- ===== src/Urts.antt =====
-- sgx-urts/src: the untrusted side, which serves the enclave's calls out of it.
pub mod Event
pub mod Signal
pub mod Enclave
pub mod Simulate
pub mod Libc
pub mod Ocalls

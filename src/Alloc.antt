-- ===== src/Alloc.antt =====
-- sgx-alloc/src/alignalloc.rs: allocation of secrets at places that the caller's requests allow.
-- `Layout` has layouts and the padding, `Requests` the test on the requests, `Block` the block
-- itself.
pub mod Layout
pub mod Requests
pub mod Block
pub mod Box
pub mod Tests

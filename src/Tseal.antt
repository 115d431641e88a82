-- ===== src/Tseal.antt =====
-- sgx-tseal/src: sealing of data to an enclave. `Internal` has the untyped data and its
-- sizes, `Raw` the conversion from and to `sgx_sealed_data_t`, `Seal` and `Unseal` the two
-- directions, with their laws below them.
pub mod Internal
pub mod Raw
pub mod Seal
pub mod Unseal
pub mod RoundTrip
pub mod Typed
pub mod Toy
pub mod Tests

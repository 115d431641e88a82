-- ===== src/Lib.antt =====
-- The crates of the SGX SDK for Rust: sealing, the cryptographic wrappers, the allocator for secrets,
-- and the events and signals that the untrusted side keeps for its enclaves. An enclave seals data with a key that only it or its signer can get, hands the sealed
-- bytes to the untrusted side, and unseals them later; the hashes and MACs of its data are computed by
-- the Intel library behind handles; secrets in its memory are placed by an allocator that knows which
-- bytes of a cache line may be read speculatively.
--
-- - `Types`: structures, flags and sizes of sgx-types/src/types.rs; the status codes of
--   sgx-types/src/error.rs are in `Base/Status`. A status is its number, `SgxResult` is `Result`.
-- - `Trts` (sgx-trts/src/trts.rs) and `Tse` (sgx-tse/src/se.rs): the functions that sealing calls.
--   `Trts/Memeq` (sgx-trts/src/memeq.rs): comparison in constant time.
-- - `Tcrypto/Gcm` (sgx-tcrypto/src/crypto.rs): `rsgx_rijndael128GCM_encrypt` and `_decrypt`.
-- - `Tcrypto/Context` and `Tcrypto/Sha256`, `Sha384`, `Sha1`, `Cmac`, `Hmac` (the same file): the hashes
--   and MACs. `Context` has the methods of the five handle types over the wrappers that each algorithm's
--   module declares; a method takes the handle and the library's state and gives both back. `Spec` says
--   what is documented of the library, `Methods` what a handle owns, `Pieces` what a client computes with
--   it, `Limits`, `OneCall` and `OneCall/Macs` connect the wrappers with the one-call functions.
-- - `Tcrypto/Lifecycle` (the same file): how `SgxEccHandle` and `SgxAesHandle` are opened, used and closed.
--   `Tcrypto/Ctr` (the same file): `rsgx_aes_ctr_encrypt` and `_decrypt`.
--   `Tcrypto/Ecc`, `Tcrypto/Aes` and `Tcrypto/Rsa`: elliptic curves, AES-GCM in pieces, RSA. In
--   `Ecc/Handles` and `Rsa/Steps` the calls of the methods are the steps of a relation on the handle and
--   the library's state.
-- - `Tseal` (sgx-tseal/src/internal.rs): `Internal` has the data and sizes, `Seal` and `Unseal` the
--   operations, `Raw` the exchange format `sgx_sealed_data_t`, `RoundTrip` the composition.
--   `Tseal/Typed` (sgx-tseal/src/seal.rs, sgx-tseal/src/aad.rs): the same for values of a type and for
--   slices of them. A type is given by how its values lie in memory, `Contiguous`.
-- - `Trts/Tcs` (sgx-trts/src/enclave.rs, sgx-types/src/metadata.rs): the count of thread control structures.
-- - `Urts/Event` (sgx-urts/src/event.rs): a thread waits outside of the enclave in sections, between which
--   it gives its mutex up; `Waiting` has the interleavings of these sections with `wake` as a step
--   relation, `Cache` the calls out of the enclave. `Urts/Signal` (sgx-urts/src/signal.rs): the
--   dispatcher of signals and the calls that clear (`Dispatch`) and register (`Register`) them.
-- - `Urts/Enclave` (sgx-urts/src/enclave.rs): `SgxEnclave`; in `Ownership` its owners are the state of a step
--   relation. `Urts/Simulate` (sgx-urts/src/simulate.rs): the patching of prohibited instructions; `Paint` and
--   `Apart` are about the overwritten places, `Walk` about the decoder, `Patched` and `Disjoint` about the
--   whole. A patched binary is handed to `Urts/Enclave`.
-- - `Urts/Ocalls` over `Urts/Libc` (the other files of sgx-urts/src): the calls out of the enclave that pass
--   a function of the C library on, by groups of files, with `Report` as their common end; `Messages`
--   (socket.rs) and `Passwd` (env.rs) are those that do more.
-- - `Alloc` (sgx-alloc/src/alignalloc.rs, module `platform`): `Layout`, `Requests` and `Block`.
-- - `Alloc/Box` (sgx-alloc/src/alignbox.rs): `AlignBox` on such a block; in `Valid` what every box keeps to,
--   in `Clones` a clone next to its original. A type is given by its size, its alignment and what its
--   own `Clone` makes of its bytes.
--
-- `Tseal` calls `Trts`, `Tse` and `Tcrypto/Gcm` through one `Platform`, the trusted libraries as they
-- answer during one call. The Intel libraries are parameters: `TrtsLib`, `TseLib`, `TcryptoLib`,
-- `TsealLib`, `ContextLib`, `EccLib`, `RsaLib`, `RsaSignLib`, `AesLib`, `CtrLib`, `UrtsLib` and `Malloc`, and the C library's
-- `LibC`, `Libc`, `MessageLib` and `PasswdLib`, have a field or an argument for each function called, and `IsGcm`, `IsTsealLib`,
-- `IsContextLib`, `NeverRefuses`, `IsLifecycle`, `IsEccLib`, `IsRsaLib`, `IsAesGcm`, `IsCtr`, `IsUrts`, `IsLibC` and `IsLibc` say what
-- the reference documents of them.
-- `DecoderLib` is the decoder of the crate iced-x86, `IsDecoder` what it documents, and the parser of the
-- crate object is a function.
-- A function that can fail gives a `Result`; one that reads or writes behind a raw pointer gives an
-- `Access`, which is `out_of_bounds` where it would leave the memory object. A slice that is tested for
-- its place is an address with its bytes.
--
-- Integers are natural numbers within their width, with the wrap-around written out; a `usize` has 64
-- bits. Loops over slices are structural recursions. Four loops have fuel, each bounded by the width:
-- `gen_alignmask` 8 and `calc_algn_loop` 4 (they halve an alignment of at most 64), `count_lzb` 65 (a
-- word of 64 bits is shifted until its top bit is set), `power_among` 64 (the exponents of a word).
-- The traversal of a layout table calls itself on shorter tables: its fuel is one more than the number
-- of layouts, and to run out of it is a result of its own. The loop over a segment's instructions has one
-- unit more than the segment has bytes, since every instruction takes one at least; a panic and
-- exhausted fuel are results of `Run`, and the 64-bit sums there wrap as in a release build.
--
-- Not modelled: the clearing of keys on the stack, the fences and the contents of uninitialised memory,
-- which no result depends on; poisoned mutexes and the clock of a timed wait; the calls out of
-- the enclave that only hand a value through; what the build tools read and write.
pub mod Base
pub mod Types
pub mod Trts
pub mod Tse
pub mod Tcrypto
pub mod Tseal
pub mod Alloc
pub mod Urts

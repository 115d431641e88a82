-- ===== src/Tseal/Toy.antt =====
-- A small platform, and runs of the sealing code on it.
use Prim.Native.Nat.{min}
use sgx_sdk_rs.Base.{
  ℕ, ◌+◌, ◌-◌, ◌≡◌, inr, refl, List, [], ◌∷◌, replicate, none, some, ok, if◌then◌else◌, leb,
  u32_max, sgx_success,
}
use sgx_sdk_rs.Types
use sgx_sdk_rs.Types.{KeyRequest, Attributes, sgx_sealed_data_t_size}
use sgx_sdk_rs.Trts
use sgx_sdk_rs.Trts.{TrtsLib, Slice}
use sgx_sdk_rs.Tse
use sgx_sdk_rs.Tse.{TseLib}
use sgx_sdk_rs.Tcrypto.Gcm
use sgx_sdk_rs.Tcrypto.Gcm.{TcryptoLib, IsGcm, Region, region}
use sgx_sdk_rs.Tseal.Internal
use sgx_sdk_rs.Tseal.Internal.{InternalSealedData}
use sgx_sdk_rs.Tseal.Raw
use sgx_sdk_rs.Tseal.Raw.{RawSealedData, TsealLib, IsTsealLib, returns}
use sgx_sdk_rs.Tseal.Seal
use sgx_sdk_rs.Tseal.Seal.{Platform}
use sgx_sdk_rs.Tseal.Unseal.{Placement}
use sgx_sdk_rs.Tseal.Unseal.Gate.{IsInside, IsInsideAad}
use sgx_sdk_rs.Tseal.Raw.Write.{stored}

-- The enclave is what lies from 0x1000 on.
abbrev pub toy_trts : TrtsLib
toy_trts = record {
  sgx_is_within_enclave = λ addr size. if leb 0x1000 addr then 1 else 0;
  sgx_is_outside_enclave = λ addr size. if leb (addr + size) 0x1000 then 1 else 0;
  sgx_read_rand = λ n. (sgx_success, replicate n 7);
}

abbrev pub toy_tse : TseLib
toy_tse = record {
  sgx_get_key = λ r. (sgx_success, r.key_id);
  sgx_self_report = record {
    cpu_svn = replicate 16 1;
    attributes = record { flags = 0x80; xfrm = 3 };
    isv_svn = 5;
    config_svn = 2;
  };
}

abbrev pub bytes_of : Region → List ℕ
bytes_of none = []
bytes_of (some bs) = bs

pub bytes_of-region : (bs : List ℕ) → bytes_of (region bs) ≡ bs
bytes_of-region [] = refl
bytes_of-region (b ∷ bs) = refl

-- A cipher that changes nothing, which is all that the laws need.
abbrev pub toy_tcrypto : TcryptoLib
toy_tcrypto = record {
  sgx_rijndael128_gcm_encrypt = λ key src src_len iv iv_len aad aad_len. record {
    status = sgx_success;
    out = bytes_of src;
    mac = replicate 16 9;
  };
  sgx_rijndael128_gcm_decrypt = λ key src src_len iv iv_len aad aad_len mac. record {
    status = sgx_success;
    out = bytes_of src;
    mac = mac;
  };
}

pub toy-IsGcm : IsGcm toy_tcrypto
toy-IsGcm = record {
  length_out = λ key src iv aad good. rw bytes_of-region;
  undoes = λ key src iv aad good. (refl, rw (bytes_of-region src, bytes_of-region src));
}

abbrev pub toy : Platform
toy = record { trts = toy_trts; tse = toy_tse; tcrypto = toy_tcrypto }

abbrev pub toy_tseal : TsealLib
toy_tseal = record {
  sgx_calc_sealed_data_size = λ a e. min (sgx_sealed_data_t_size + a + e) u32_max;
  sgx_get_add_mac_txt_len = λ r. r.payload_size - r.plain_text_offset;
  sgx_get_encrypt_txt_len = λ r. r.plain_text_offset;
}

pub toy_IsTsealLib : IsTsealLib toy_tseal
toy_IsTsealLib = record { calc = λ a e ha he. refl; add_mac = λ r h. refl; encrypt = λ r h. refl }

abbrev pub secret : Slice
secret = record { addr = 0x2000; bytes = 11 ∷ 22 ∷ 33 ∷ [] }

abbrev pub label : Slice
label = record { addr = 0x10; bytes = 1 ∷ 2 ∷ [] }

abbrev pub mask : Attributes
mask = record { flags = 3; xfrm = 0 }

abbrev pub sealed_toy : InternalSealedData
sealed_toy = record {
  key_request = record {
    key_name = 4;
    key_policy = 2;
    isv_svn = 5;
    reserved1 = 0;
    cpu_svn = replicate 16 1;
    attribute_mask = mask;
    key_id = replicate 32 7;
    misc_mask = 0;
    config_svn = 2;
    reserved2 = replicate 434 0;
  };
  payload_data = record {
    payload_size = 5;
    reserved = replicate 12 0;
    payload_tag = replicate 16 9;
    encrypt = secret.bytes;
    additional = label.bytes;
  };
}

pub seal_run : Seal.seal_data_ex toy 2 mask 0 label secret ≡ ok sealed_toy
unfolding Seal.seal_data_ex Seal.seal_with_fresh_key Seal.seal_data_iv Seal.key_policy_refused
    Seal.attribute_mask_refused Internal.calc_raw_sealed_data_size Trts.rsgx_read_rand
    Trts.rsgx_slice_is_within_enclave Trts.rsgx_slice_is_outside_enclave Tse.rsgx_get_align_key
    Tse.rsgx_self_report Gcm.rsgx_rijndael128_gcm_encrypt Gcm.check_lengths
seal_run = refl

abbrev pub at : Placement
at = record { self_addr = 0x3000; self_size = 576; encrypt_addr = 0x4000; additional_addr = 0x5000 }

pub IsInside-toy : IsInside toy at sealed_toy
unfolding Trts.rsgx_slice_is_within_enclave
IsInside-toy = (refl, refl, inr refl)

abbrev pub aad_toy : InternalSealedData
aad_toy = record {
  key_request = sealed_toy.key_request;
  payload_data = record (sealed_toy.payload_data) {
    payload_size = 2;
    encrypt = [];
    additional = label.bytes;
  };
}

pub mac_run : Seal.mac_aadata_ex toy 2 mask 0 label ≡ ok aad_toy
unfolding Seal.mac_aadata_ex Seal.seal_with_fresh_key Seal.seal_data_iv Seal.key_policy_refused
    Seal.attribute_mask_refused Internal.calc_raw_sealed_data_size Trts.rsgx_read_rand
    Trts.rsgx_slice_is_within_enclave Trts.rsgx_slice_is_outside_enclave Tse.rsgx_get_align_key
    Tse.rsgx_self_report Gcm.rsgx_rijndael128_gcm_encrypt Gcm.check_lengths
mac_run = refl

pub IsInsideAad-toy : IsInsideAad toy at aad_toy
unfolding Trts.rsgx_slice_is_within_enclave
IsInsideAad-toy = (refl, refl)

-- A buffer of 568 bytes behind 0x6000.
abbrev pub buffer : RawSealedData
buffer = record {
  key_request = Types.default_key_request;
  plain_text_offset = 0;
  reserved = replicate 12 0;
  payload_size = 0;
  aes_reserved = replicate 12 0;
  payload_tag = replicate 16 0;
  payload = replicate 8 255;
}

pub write_run :
    Raw.to_raw_sealed_data_t toy_trts toy_tseal sealed_toy 0x6000 buffer 568
    ≡ returns (some (stored sealed_toy buffer))
unfolding Raw.to_raw_sealed_data_t Raw.straddles Trts.rsgx_raw_is_within_enclave
    Trts.rsgx_raw_is_outside_enclave Internal.get_add_mac_txt_len Internal.get_encrypt_txt_len
write_run = refl

-- ===== src/Types.antt =====
-- sgx-types/src/types.rs and metadata.rs: the structures and constants that the modelled crates
-- read and write. Byte arrays are lists of bytes; integers are numbers within their width.
-- Of a report's body the fields that the crates read are kept.
use sgx_sdk_rs.Base.{ℕ, ◌+◌, ◌-◌, ◌^◌, List, replicate, bit_or}

pub record Attributes : Type 0 where
  pub flags : ℕ
  pub xfrm : ℕ

pub record KeyRequest : Type 0 where
  pub key_name : ℕ
  pub key_policy : ℕ
  pub isv_svn : ℕ
  pub reserved1 : ℕ
  pub cpu_svn : List ℕ
  pub attribute_mask : Attributes
  pub key_id : List ℕ
  pub misc_mask : ℕ
  pub config_svn : ℕ
  pub reserved2 : List ℕ

pub record ReportBody : Type 0 where
  pub cpu_svn : List ℕ
  pub attributes : Attributes
  pub isv_svn : ℕ
  pub config_svn : ℕ

abbrev pub sgx_flags_initted : ℕ
sgx_flags_initted = 0x1

abbrev pub sgx_flags_debug : ℕ
sgx_flags_debug = 0x2

abbrev pub sgx_flags_mode64bit : ℕ
sgx_flags_mode64bit = 0x4

abbrev pub sgx_flags_provision_key : ℕ
sgx_flags_provision_key = 0x10

abbrev pub sgx_flags_einittoken_key : ℕ
sgx_flags_einittoken_key = 0x20

abbrev pub sgx_flags_kss : ℕ
sgx_flags_kss = 0x80

-- `!x` on a `u64`, a `u32` and a `u16`.
abbrev pub not64 : ℕ → ℕ
not64 x = 2 ^ 64 - 1 - x

abbrev pub not32 : ℕ → ℕ
not32 x = 2 ^ 32 - 1 - x

abbrev pub not16 : ℕ → ℕ
not16 x = 2 ^ 16 - 1 - x

abbrev pub flags_non_security_bits : ℕ
flags_non_security_bits =
    bit_or (bit_or (bit_or 0x00ff_ffff_ffff_ffc0 sgx_flags_mode64bit) sgx_flags_provision_key)
      sgx_flags_einittoken_key

abbrev pub tseal_default_flagsmask : ℕ
tseal_default_flagsmask = not64 flags_non_security_bits

abbrev pub misc_non_security_bits : ℕ
misc_non_security_bits = 0x0fff_ffff

abbrev pub tseal_default_miscmask : ℕ
tseal_default_miscmask = not32 misc_non_security_bits

abbrev pub sgx_keyselect_seal : ℕ
sgx_keyselect_seal = 0x4

abbrev pub sgx_keypolicy_mrenclave : ℕ
sgx_keypolicy_mrenclave = 0x1

abbrev pub sgx_keypolicy_mrsigner : ℕ
sgx_keypolicy_mrsigner = 0x2

abbrev pub sgx_keypolicy_noisvprodid : ℕ
sgx_keypolicy_noisvprodid = 0x4

abbrev pub sgx_keypolicy_configid : ℕ
sgx_keypolicy_configid = 0x8

abbrev pub sgx_keypolicy_isvfamilyid : ℕ
sgx_keypolicy_isvfamilyid = 0x10

abbrev pub sgx_keypolicy_isvextprodid : ℕ
sgx_keypolicy_isvextprodid = 0x20

abbrev pub sgx_keyid_size : ℕ
sgx_keyid_size = 32

abbrev pub sgx_cpusvn_size : ℕ
sgx_cpusvn_size = 16

abbrev pub sgx_key_request_reserved2_bytes : ℕ
sgx_key_request_reserved2_bytes = 434

abbrev pub sgx_aesgcm_iv_size : ℕ
sgx_aesgcm_iv_size = 12

abbrev pub sgx_seal_iv_size : ℕ
sgx_seal_iv_size = 12

abbrev pub sgx_seal_tag_size : ℕ
sgx_seal_tag_size = 16

-- `size_of::<sgx_key_request_t>()`, field by field; `repr(C)` adds no padding here.
abbrev pub sgx_key_request_t_size : ℕ
sgx_key_request_t_size =
    2
    + 2
    + 2
    + 2
    + sgx_cpusvn_size
    + (8 + 8)
    + sgx_keyid_size
    + 4
    + 2
    + sgx_key_request_reserved2_bytes

abbrev pub sgx_aes_gcm_data_t_size : ℕ
sgx_aes_gcm_data_t_size = 4 + 12 + sgx_seal_tag_size

-- `size_of::<sgx_sealed_data_t>()`.
abbrev pub sgx_sealed_data_t_size : ℕ
sgx_sealed_data_t_size = sgx_key_request_t_size + 4 + 12 + sgx_aes_gcm_data_t_size

abbrev pub default_key_request : KeyRequest
default_key_request = record {
  key_name = 0;
  key_policy = 0;
  isv_svn = 0;
  reserved1 = 0;
  cpu_svn = replicate sgx_cpusvn_size 0;
  attribute_mask = record { flags = 0; xfrm = 0 };
  key_id = replicate sgx_keyid_size 0;
  misc_mask = 0;
  config_svn = 0;
  reserved2 = replicate sgx_key_request_reserved2_bytes 0;
}

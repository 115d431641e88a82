-- ===== src/Urts/Enclave.antt =====
-- sgx-urts/src/enclave.rs: how an enclave is started and destroyed, and `SgxEnclave`, which owns one.
-- The Intel runtime and the enclave's own entry points are a parameter. Paths are their bytes; an `i32`
-- is its bit pattern.
pub mod Ownership
pub mod Tests
use sgx_sdk_rs.Base.{
  ℕ, ◌^◌, List, [], ◌∷◌, length, replicate, set, Bool, true, false, not, ◌||◌, ◌==◌, if◌then◌else◌,
  SgxStatus, Result, ok, err, from_status, sgx_error_invalid_parameter,
}
use sgx_sdk_rs.Types.{Attributes}

pub record MiscAttribute : Type 0 where
  pub secs_attr : Attributes
  pub misc_select : ℕ

-- The launch token, and whether it was updated.
pub record Token : Type 0 where
  pub launch_token : List ℕ
  pub launch_token_updated : ℕ

pub record UswitchlessConfig : Type 0 where
  pub switchless_calls_pool_size_qwords : ℕ
  pub num_uworkers : ℕ
  pub num_tworkers : ℕ
  pub retries_before_fallback : ℕ
  pub retries_before_sleep : ℕ
  pub callback_func : List ℕ

unfoldable pub default_config : UswitchlessConfig
default_config = record {
  switchless_calls_pool_size_qwords = 0;
  num_uworkers = 1;
  num_tworkers = 1;
  retries_before_fallback = 0;
  retries_before_sleep = 0;
  callback_func = replicate 4 0;
}

-- What a pointer to an extended feature leads to.
pub data ExFeature : Type 0 where
  null : ExFeature
  switchless : UswitchlessConfig → ExFeature
  pointer : ℕ → ExFeature

abbrev pub sgx_create_enclave_ex_switchless_bit_idx : ℕ
sgx_create_enclave_ex_switchless_bit_idx = 1

abbrev pub sgx_create_enclave_ex_switchless : ℕ
sgx_create_enclave_ex_switchless = 2 ^ sgx_create_enclave_ex_switchless_bit_idx

abbrev pub sgx_error_invalid_enclave : SgxStatus
sgx_error_invalid_enclave = 0x0000_2001

-- What a call that starts an enclave leaves behind.
pub record Started (W : Type 0) : Type 0 where
  pub status : SgxStatus
  pub enclave_id : ℕ
  pub misc_attr : MiscAttribute
  pub world : W

pub record UrtsLib (W : Type 0) : Type 0 where
  pub sgx_create_enclave : List ℕ → ℕ → Token → MiscAttribute → W → Token × Started W
  pub sgx_create_encrypted_enclave :
      List ℕ → ℕ → Token → MiscAttribute → List ℕ → W → Token × Started W
  pub sgx_create_enclave_ex :
      List ℕ → ℕ → Token → MiscAttribute → ℕ → List ExFeature → W → Token × Started W
  pub sgx_create_enclave_from_buffer_ex :
      List ℕ → ℕ → ℕ → MiscAttribute → ℕ → List ExFeature → W → Started W
  pub sgx_destroy_enclave : ℕ → W → SgxStatus × W
  pub sgx_get_target_info : ℕ → W → SgxStatus × List ℕ × W
  pub t_global_init_ecall : ℕ → ℕ → List ℕ → ℕ → W → SgxStatus × W
  pub t_global_exit_ecall : ℕ → W → SgxStatus × W

-- What a function gives, with the attributes and the runtime behind it.
pub record Launch {ℓ} (W : Type 0) (A : Type ℓ) : Type ℓ where
  pub result : Result A
  pub misc_attr : MiscAttribute
  pub world : W

pub record SgxEnclave : Type 0 where
  pub id : ℕ
  pub debug : ℕ
  pub path : List ℕ

-- The derived `Clone`.
unfoldable pub clone_enclave : SgxEnclave → SgxEnclave
clone_enclave e = record { id = e.id; debug = e.debug; path = e.path }

-- `match ret { SGX_SUCCESS => Ok(enclave_id), _ => Err(ret) }`
abbrev pub launched : {W : Type 0} → Started W → Launch W ℕ
launched s = record {
  result = from_status s.status s.enclave_id;
  misc_attr = s.misc_attr;
  world = s.world;
}

-- `CString::new` refuses a path that holds a zero byte.
unfoldable pub has_nul : List ℕ → Bool
has_nul [] = false
has_nul (b ∷ bs) = b == 0 || has_nul bs

unfoldable pub is_debug : SgxEnclave → Bool
is_debug e = not (e.debug == 0)

module _ {W : Type 0} (urts : UrtsLib W) where
  unfoldable pub rsgx_create_enclave : List ℕ → ℕ → Token → MiscAttribute → W → Token × Launch W ℕ
  rsgx_create_enclave file_name debug token misc w =
      let (token', s) = urts.sgx_create_enclave file_name debug token misc w in (token', launched s)

  unfoldable pub rsgx_create_encrypted_enclave :
      List ℕ → ℕ → Token → MiscAttribute → List ℕ → W → Token × Launch W ℕ
  rsgx_create_encrypted_enclave file_name debug token misc sealed_key w =
      let (token', s) = urts.sgx_create_encrypted_enclave file_name debug token misc sealed_key w in
      (token', launched s)

  unfoldable pub rsgx_create_enclave_with_workers :
      List ℕ → ℕ → Token → MiscAttribute → ℕ → ℕ → W → Token × Launch W ℕ
  unfolding default_config
  rsgx_create_enclave_with_workers file_name debug token misc num_uworkers num_tworkers w =
      let us_config = record default_config {
        num_uworkers = num_uworkers;
        num_tworkers = num_tworkers;
      } in
      let enclave_ex_p =
        set (replicate 32 null) sgx_create_enclave_ex_switchless_bit_idx (switchless us_config) in
      let (token', s) =
        urts.sgx_create_enclave_ex file_name debug token misc sgx_create_enclave_ex_switchless
          enclave_ex_p w in
      (token', launched s)

  unfoldable pub rsgx_create_enclave_from_buffer_ex :
      List ℕ → ℕ → MiscAttribute → ℕ → List ExFeature → W → Launch W ℕ
  rsgx_create_enclave_from_buffer_ex buffer debug misc ex_features ex_features_p w =
      let s =
        urts.sgx_create_enclave_from_buffer_ex buffer (length buffer) debug misc ex_features
          ex_features_p w in
      if length buffer == 0
      then record { result = err sgx_error_invalid_parameter; misc_attr = misc; world = w }
      else launched s

  unfoldable pub rsgx_destroy_enclave : ℕ → W → Result (Unit {0}) × W
  rsgx_destroy_enclave enclave_id w =
      let (ret, w') = urts.sgx_destroy_enclave enclave_id w in (from_status ret tt, w')

  unfoldable pub rsgx_get_target_info : ℕ → W → Result (List ℕ) × W
  rsgx_get_target_info enclave_id w =
      let (ret, target_info, w') = urts.sgx_get_target_info enclave_id w in
      (from_status ret target_info, w')

  -- The crate's features `global_init` and `global_exit` require each other.
  module _ (global_init : Bool) where
    unfoldable pub init_enclave : SgxEnclave → W → W
    init_enclave e w =
        if global_init then (urts.t_global_init_ecall e.id e.id e.path (length e.path) w).1 else w

    unfoldable pub exit_enclave : SgxEnclave → W → W
    exit_enclave e w = if global_init then (urts.t_global_exit_ecall e.id w).1 else w

    -- An enclave that was started gets its owner, and is initialised.
    unfoldable pub adopt : ℕ → List ℕ → Launch W ℕ → Launch W SgxEnclave
    unfolding init_enclave
    adopt debug path l = elim l.result [
      | err e ↦ record { result = err e; misc_attr = l.misc_attr; world = l.world }
      | ok eid ↦
          let enclave : SgxEnclave = record { id = eid; debug = debug; path = path } in
          record {
            result = ok enclave;
            misc_attr = l.misc_attr;
            world = init_enclave enclave l.world;
          }
    ]

    -- The answer to a path that is no C string.
    abbrev pub no_path : MiscAttribute → W → Launch W SgxEnclave
    no_path misc w = record { result = err sgx_error_invalid_enclave; misc_attr = misc; world = w }

    unfoldable pub create_enclave :
        List ℕ → ℕ → Token → MiscAttribute → W → Token × Launch W SgxEnclave
    unfolding has_nul adopt rsgx_create_enclave
    create_enclave file_name debug token misc w =
        let (token', l) = rsgx_create_enclave file_name debug token misc w in
        if has_nul file_name then (token, no_path misc w) else (token', adopt debug file_name l)

    unfoldable pub create_encrypt :
        List ℕ → ℕ → Token → MiscAttribute → List ℕ → W → Token × Launch W SgxEnclave
    unfolding has_nul adopt rsgx_create_encrypted_enclave
    create_encrypt file_name debug token misc sealed_key w =
        let (token', l) = rsgx_create_encrypted_enclave file_name debug token misc sealed_key w in
        if has_nul file_name then (token, no_path misc w) else (token', adopt debug file_name l)

    unfoldable pub create_with_workers :
        List ℕ → ℕ → Token → MiscAttribute → ℕ → ℕ → W → Token × Launch W SgxEnclave
    unfolding has_nul adopt rsgx_create_enclave_with_workers
    create_with_workers file_name debug token misc num_uworkers num_tworkers w =
        let (token', l) =
          rsgx_create_enclave_with_workers file_name debug token misc num_uworkers num_tworkers w in
        if has_nul file_name then (token, no_path misc w) else (token', adopt debug file_name l)

    unfoldable pub create_from_buffer :
        List ℕ → ℕ → MiscAttribute → ℕ → List ExFeature → W → Launch W SgxEnclave
    unfolding adopt rsgx_create_enclave_from_buffer_ex
    create_from_buffer buffer debug misc ex_features ex_features_p w =
        adopt debug []
          (rsgx_create_enclave_from_buffer_ex buffer debug misc ex_features ex_features_p w)

    -- `Drop::drop`: what is left of the runtime.
    unfoldable pub drop_enclave : SgxEnclave → W → W
    unfolding exit_enclave rsgx_destroy_enclave
    drop_enclave e w = (rsgx_destroy_enclave e.id (exit_enclave e w)).1

    -- It takes the enclave, so that it is dropped.
    unfoldable pub destroy : SgxEnclave → W → W
    unfolding drop_enclave
    destroy e w = drop_enclave e w

    unfoldable pub get_target_info : SgxEnclave → W → Result (List ℕ) × W
    unfolding rsgx_get_target_info
    get_target_info e w = rsgx_get_target_info e.id w

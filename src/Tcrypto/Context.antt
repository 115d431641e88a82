-- ===== src/Tcrypto/Context.antt =====
-- sgx-tcrypto/src/crypto.rs: the handles to a context that the native library keeps for a hash or a
-- MAC computed in pieces. The five handle types have the same methods over other wrappers, so the
-- methods are written once, over a record of wrappers that each algorithm fills in.
pub mod Spec
pub mod Limits
pub mod Methods
pub mod Pieces
use sgx_sdk_rs.Base.{
  ℕ, List, [], Bool, true, false, ◌||◌, ltb, ◌==◌, length, if◌then◌else◌, SgxStatus, Result, ok,
  err, from_status, sgx_success, sgx_error_invalid_parameter, sgx_error_invalid_state, u32_max,
}

-- The native functions of one algorithm. `W` is the state the library keeps. A handle is an address,
-- a hash or MAC is its bytes; `init` has the key, which is empty for a hash. An input comes with its
-- length as the code passes it, a number of 32 bits. A call that writes a handle or a hash gives it
-- beside its status, whatever the status.
pub record ContextLib (W : Type 0) : Type 0 where
  pub msg : List ℕ → List ℕ → ℕ → SgxStatus × List ℕ
  pub init : List ℕ → W → SgxStatus × ℕ × W
  pub update : List ℕ → ℕ → ℕ → W → SgxStatus × W
  pub final : ℕ → W → SgxStatus × List ℕ × W
  pub close : ℕ → W → SgxStatus × W

-- The private wrappers that a handle's methods call: `rsgx_sha256_init` and its siblings.
pub record Wrappers (W : Type 0) : Type 0 where
  pub init : List ℕ → W → SgxStatus × ℕ × W
  pub update_msg : List ℕ → ℕ → W → SgxStatus × W
  pub update_slice : List ℕ → ℕ → W → SgxStatus × W
  pub get_hash : ℕ → W → SgxStatus × List ℕ × W
  pub close : ℕ → W → SgxStatus × W

-- The tests on an input's size that every wrapper makes.
abbrev pub size_refused : ℕ → Bool
size_refused size = size == 0 || ltb u32_max size

-- A pointer that is null is 0.
pub record Handle : Type 0 where
  pub handle : ℕ
  pub initflag : Bool

-- What a call returns, the handle behind it and the library's state behind it.
pub record Outcome {ℓ} (W : Type 0) (A : Type ℓ) : Type ℓ where
  pub result : Result A
  pub this : Handle
  pub world : W

abbrev pub new : Handle
new = record { handle = 0; initflag = false }

module _ {W : Type 0} (rsgx : Wrappers W) where
  unfoldable pub init : List ℕ → Handle → W → Outcome W (Unit {0})
  init key h w =
      let (ret, handle, w') = rsgx.init key w in
      if h.initflag
      then record { result = ok tt; this = h; world = w }
      else if ret == sgx_success
      then record { result = ok tt; this = record { handle = handle; initflag = true }; world = w' }
      else record { result = err ret; this = record h { handle = handle }; world = w' }

  unfoldable pub update_msg : List ℕ → Handle → W → Outcome W (Unit {0})
  update_msg src h w =
      let (ret, w') = rsgx.update_msg src h.handle w in
      if h.initflag
      then record { result = from_status ret tt; this = h; world = w' }
      else record { result = err sgx_error_invalid_state; this = h; world = w }

  unfoldable pub update_slice : List ℕ → Handle → W → Outcome W (Unit {0})
  update_slice src h w =
      let (ret, w') = rsgx.update_slice src h.handle w in
      if h.initflag
      then record { result = from_status ret tt; this = h; world = w' }
      else record { result = err sgx_error_invalid_state; this = h; world = w }

  unfoldable pub get_hash : Handle → W → Outcome W (List ℕ)
  get_hash h w =
      let (ret, hash, w') = rsgx.get_hash h.handle w in
      if h.initflag
      then record { result = from_status ret hash; this = h; world = w' }
      else record { result = err sgx_error_invalid_state; this = h; world = w }

  unfoldable pub close : Handle → W → Outcome W (Unit {0})
  close h w =
      let (ret, w') = if h.handle == 0 then (sgx_success, w) else rsgx.close h.handle w in
      if h.initflag
      then if ret == sgx_success
        then record { result = ok tt; this = new; world = w' }
        else record { result = err ret; this = h; world = w' }
      else record { result = ok tt; this = h; world = w }

  -- `Drop::drop`: what the library keeps afterwards.
  unfoldable pub drop_handle : Handle → W → W
  unfolding close
  drop_handle h w = (close h w).world

-- The methods of a handle type.
pub record HandleMethods (W : Type 0) : Type 0 where
  pub init : List ℕ → Handle → W → Outcome W (Unit {0})
  pub update_msg : List ℕ → Handle → W → Outcome W (Unit {0})
  pub update_slice : List ℕ → Handle → W → Outcome W (Unit {0})
  pub get_hash : Handle → W → Outcome W (List ℕ)
  pub close : Handle → W → Outcome W (Unit {0})
  pub drop : Handle → W → W

abbrev pub methods : {W : Type 0} → Wrappers W → HandleMethods W
methods rsgx = record {
  init = init rsgx;
  update_msg = update_msg rsgx;
  update_slice = update_slice rsgx;
  get_hash = get_hash rsgx;
  close = close rsgx;
  drop = drop_handle rsgx;
}

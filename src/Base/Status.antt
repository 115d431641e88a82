-- ===== src/Base/Status.antt =====
-- `sgx_status_t` of sgx-types/src/error.rs, which is `repr(u32)`: a status is its number, and
-- the numbers that the code names have a name. `SgxResult` is `Result`.
use Prim.Native.Nat.{ℕ}
use mathlib.Core.Path.{◌≡◌, refl}
use mathlib.Core.Logic.{◌⊎◌, inl, inr}
use mathlib.Core.Bool.{Bool, true, false}
use sgx_sdk_rs.Base.Tests.{◌==◌, if◌then◌else◌}

abbrev pub SgxStatus : Type 0
SgxStatus = ℕ

abbrev pub sgx_success : SgxStatus
sgx_success = 0x0000_0000

abbrev pub sgx_error_unexpected : SgxStatus
sgx_error_unexpected = 0x0000_0001

abbrev pub sgx_error_invalid_parameter : SgxStatus
sgx_error_invalid_parameter = 0x0000_0002

abbrev pub sgx_error_out_of_memory : SgxStatus
sgx_error_out_of_memory = 0x0000_0003

abbrev pub sgx_error_invalid_state : SgxStatus
sgx_error_invalid_state = 0x0000_0005

abbrev pub sgx_error_mac_mismatch : SgxStatus
sgx_error_mac_mismatch = 0x0000_3001

abbrev pub sgx_error_invalid_isvsvn : SgxStatus
sgx_error_invalid_isvsvn = 0x0000_3004

abbrev pub sgx_error_invalid_cpusvn : SgxStatus
sgx_error_invalid_cpusvn = 0x0000_3003

pub data Result {ℓ} (A : Type ℓ) : Type ℓ where
  ok : A → Result A
  err : SgxStatus → Result A

-- `?` on a result, and on one with nothing in it.
infixl 5 ◌>>=◌ ◌>>◌
abbrev pub ◌>>=◌ {ℓ κ} : {A : Type ℓ} {B : Type κ} → Result A → (A → Result B) → Result B
err e >>= next = err e
ok a >>= next = next a

abbrev pub ◌>>◌ {ℓ} : {B : Type ℓ} → Result (Unit {0}) → Result B → Result B
first >> next = first >>= λ _. next

-- `if … { return Err(…); }`
abbrev pub reject_if : Bool → SgxStatus → Result (Unit {0})
reject_if true e = err e
reject_if false e = ok tt

-- `match ret { SGX_SUCCESS => Ok(a), _ => Err(ret) }`
abbrev pub from_status {ℓ} : {A : Type ℓ} → SgxStatus → A → Result A
from_status ret a = if ret == sgx_success then ok a else err ret

abbrev pub map_ok {ℓ κ} : {A : Type ℓ} {B : Type κ} → (A → B) → Result A → Result B
map_ok f (ok a) = ok (f a)
map_ok f (err e) = err e

abbrev pub map_err {ℓ} : {A : Type ℓ} → (SgxStatus → SgxStatus) → Result A → Result A
map_err f (ok a) = ok a
map_err f (err e) = err (f e)

pub Result-cases {ℓ} :
    {A : Type ℓ} (r : Result A) → ((a : A) × (r ≡ ok a)) ⊎ ((e : SgxStatus) × (r ≡ err e))
Result-cases (ok a) = inl (a, refl)
Result-cases (err e) = inr (e, refl)

-- A property of both branches on a result, each at its value.
pub on_result {ℓ κ} :
    {A : Type ℓ} {B : Type κ} (P : B → Type 0) (r : Result A) (f : A → B) (g : SgxStatus → B)
    → ((a : A) → r ≡ ok a → P (f a))
    → ((e : SgxStatus) → r ≡ err e → P (g e))
    → P (elim r [ ok a ↦ f a | err e ↦ g e ])
on_result P (ok a) f g good bad = good a refl
on_result P (err e) f g good bad = bad e refl

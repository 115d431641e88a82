-- ===== src/Tcrypto/Lifecycle/Toy.antt =====
-- A library that keeps at most one context, at the address 1.
use mathlib.Core.Path.{fun_ext}
use sgx_sdk_rs.Base.{
  ℕ, ◌≡◌, ◌≢◌, refl, arith, Bool, true, false, ◌==◌, if◌then◌else◌, SgxStatus, sgx_success,
  sgx_error_out_of_memory, sgx_error_invalid_parameter,
}
use sgx_sdk_rs.Tcrypto.Lifecycle.{Live, IsLifecycle}

abbrev pub toy_open : Bool → SgxStatus × ℕ × Bool
toy_open false = (sgx_success, 1, true)
toy_open true = (sgx_error_out_of_memory, 0, true)

abbrev pub toy_close : ℕ → Bool → SgxStatus × Bool
toy_close h w = if h == 1 then (sgx_success, false) else (sgx_error_invalid_parameter, w)

abbrev pub toy_live : Bool → Live
toy_live false j = false
toy_live true j = j == 1

opens_lem :
    (w : Bool)
    → let (ret, h, w') = toy_open w in
      ret ≡ sgx_success
      → (h ≢ 0)
        × (toy_live w h ≡ false)
        × (toy_live w' ≡ (λ j. if j == h then true else toy_live w j))
opens_lem false good = (λ e. absurd (omega (arith, e)), refl, fun_ext (λ j. ground arith))
opens_lem true good = absurd (omega (arith, good))

refuses_lem :
    (w : Bool) → let (ret, h, w') = toy_open w in ret ≢ sgx_success → toy_live w' ≡ toy_live w
refuses_lem false bad = absurd (bad refl)
refuses_lem true bad = refl

closes_lem :
    (h : ℕ) (w : Bool)
    → toy_live w h ≡ true
    → (toy_close h w).0 ≡ sgx_success
    → toy_live (toy_close h w).1 ≡ (λ j. if j == h then false else toy_live w j)
closes_lem h false at good = absurd cc
closes_lem h true at good = fun_ext (λ j. ground (arith, at))

keeps_lem :
    (h : ℕ) (w : Bool)
    → toy_live w h ≡ true
    → (toy_close h w).0 ≢ sgx_success
    → toy_live (toy_close h w).1 ≡ toy_live w
keeps_lem h false at bad = absurd cc
keeps_lem h true at bad = absurd (bad (ground (arith, at)))

pub toy-IsLifecycle : IsLifecycle toy_live toy_open toy_close
toy-IsLifecycle = record {
  opens = opens_lem;
  refuses = refuses_lem;
  closes = closes_lem;
  keeps = keeps_lem;
}

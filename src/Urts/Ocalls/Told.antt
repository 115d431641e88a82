-- ===== src/Urts/Ocalls/Told.antt =====
-- sgx-urts/src: what a call out of the enclave tells of an error.
use sgx_sdk_rs.Base.{
  ℕ, ◌-◌, ◌^◌, ◌<◌, ◌≡◌, ◌≢◌, ◌⊎◌, inl, inr, refl, arith, Bool, true, false, leb, ◌==◌, ==_iff,
  if◌then◌else◌, Bool-cases,
}
use sgx_sdk_rs.Urts.Libc.{
  Call, Kind, Answer, Libc, failure, kind, IsValue, IsSuccess, IsOtherNegative, IsLibc,
}
use sgx_sdk_rs.Urts.Ocalls.Report.{
  negative32, negative64, is_null, is_map_failed, is_eai_system, report, store_error,
}

-- How a test of the value, with the answer `failed`, takes it.
abbrev pub Takes : Kind → ℕ → Bool → Type 0
Takes k v failed =
    ((v ≡ failure k) × (failed ≡ true))
    ⊎ (IsSuccess k v × (failed ≡ false))
    ⊎ (IsOtherNegative k v × (failed ≡ true))

pub negative32-Takes : (v : ℕ) → v < 2 ^ 32 → Takes Kind.minus_one_int v (negative32 v)
negative32-Takes v value = elim (Bool-cases (leb (2 ^ 31) v)) [
  | inr h ↦ inr (inl (ground (arith, h), h))
  | inl h ↦ elim (Bool-cases (v == 2 ^ 32 - 1)) [
    | inl e ↦ inl ((==_iff _ _).0 e, h)
    | inr e ↦ inr (inr ((ground (arith, h), ground (arith, e, value)), h))
  ]
]

pub negative64-Takes : (v : ℕ) → v < 2 ^ 64 → Takes Kind.minus_one_word v (negative64 v)
negative64-Takes v value = elim (Bool-cases (leb (2 ^ 63) v)) [
  | inr h ↦ inr (inl (ground (arith, h), h))
  | inl h ↦ elim (Bool-cases (v == 2 ^ 64 - 1)) [
    | inl e ↦ inl ((==_iff _ _).0 e, h)
    | inr e ↦ inr (inr ((ground (arith, h), ground (arith, e, value)), h))
  ]
]

pub is_null-Takes : (v : ℕ) → v < 2 ^ 64 → Takes Kind.null_pointer v (is_null v)
is_null-Takes v value = elim (Bool-cases (v == 0)) [
  | inl e ↦ inl ((==_iff _ _).0 e, e)
  | inr e ↦ inr (inl (ground (arith, e), e))
]

pub is_zero-Takes : (v : ℕ) → v < 2 ^ 32 → Takes Kind.zero_int v (is_null v)
is_zero-Takes v value = is_null-Takes v (omega (arith, value))

pub is_map_failed-Takes : (v : ℕ) → v < 2 ^ 64 → Takes Kind.map_failed v (is_map_failed v)
is_map_failed-Takes v value = elim (Bool-cases (v == 2 ^ 64 - 1)) [
  | inl e ↦ inl ((==_iff _ _).0 e, e)
  | inr e ↦ inr (inl (ground (arith, e), e))
]

pub is_eai_system-Takes : (v : ℕ) → v < 2 ^ 32 → Takes Kind.eai_system v (is_eai_system v)
is_eai_system-Takes v value = elim (Bool-cases (v == 2 ^ 32 - 11)) [
  | inl e ↦ inl ((==_iff _ _).0 e, e)
  | inr e ↦ inr (inl (ground (arith, e), e))
]

module _ {W : Type 0} (libc : Libc W) where
  -- What is stored behind the pointer for the error, and where.
  abbrev pub Stored : Kind → ℕ → Answer W → W → Type 0
  Stored k error answer w' =
      ((error ≡ 0) × (w' ≡ answer.world))
      ⊎ ((error ≢ 0)
          × (answer.value ≡ failure k)
          × (w' ≡ libc.write_int error answer.errno answer.world))
      ⊎ ((error ≢ 0) × IsSuccess k answer.value × (w' ≡ libc.write_int error 0 answer.world))
      ⊎ ((error ≢ 0)
          × IsOtherNegative k answer.value
          × (w' ≡ libc.write_int error answer.errno answer.world))

  abbrev pub Told : Call → ℕ → Answer W → ℕ × W → Type 0
  Told c error answer told = (told.0 ≡ answer.value) × Stored (kind c) error answer told.1

  store_error-Stored :
      (k : Kind) (failed : Bool) (error : ℕ) (answer : Answer W)
      → Takes k answer.value failed
      → Stored k error answer
          (store_error libc error (if failed then answer.errno else 0) answer.world)
  unfolding store_error
  store_error-Stored k failed error answer takes = elim (Bool-cases (error == 0)) [
    | inl null ↦ inl ((==_iff _ _).0 null, rw null refl)
    | inr some_place ↦
        let there : error ≢ 0 = ground (arith, some_place) in
        elim takes [
          | inl (said, e) ↦ inr (inl (there, said, rw (some_place, e) refl))
          | inr (inl (fine, e)) ↦ inr (inr (inl (there, fine, rw (some_place, e) refl)))
          | inr (inr (odd, e)) ↦ inr (inr (inr (there, odd, rw (some_place, e) refl)))
        ]
  ]

  pub report-Told :
      IsLibc libc
      → (failed : ℕ → Bool) (c : Call) (error : ℕ) (w : W)
      → ((v : ℕ) → IsValue (kind c) v → Takes (kind c) v (failed v))
      → Told c error (libc.call c w) (report libc failed c error w)
  unfolding report
  report-Told laws failed c error w takes = (
    refl,
    store_error-Stored (kind c) (failed (libc.call c w).value) error (libc.call c w)
        (takes (libc.call c w).value (laws.values c w)),
  )

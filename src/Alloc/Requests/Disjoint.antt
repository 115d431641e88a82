-- ===== src/Alloc/Requests/Disjoint.antt =====
-- `check_align_req` against what it is meant to decide, and the bitmap that it leaves behind.
use mathlib.Core.Path.{fun_ext, subst}
use native.Mathlib.Decide.{dec_le}
use sgx_sdk_rs.Base.{
  ℕ, zero, suc, ◌+◌, ◌*◌, ◌/◌, ◌%◌, ◌^◌, ◌≤◌, ◌<◌, ◌≡◌, ◌≢◌, ◌↔◌, ◌⊎◌, inl, inr, sym, arith, refl,
  List, [], ◌∷◌, Bool, true, false, ◌||◌, none, some, length, get_or, replicate, length-replicate,
  u64_mod, Bool-cases,
}
use sgx_sdk_rs.Base.Bits.{zero-bit_and}
use sgx_sdk_rs.Alloc.Layout.{AlignReq, check_overflow}
use sgx_sdk_rs.Alloc.Requests.{
  Heap, Malloc, div_ceil_eight, marked, mark_all, no_requests, check_align_req,
}
use sgx_sdk_rs.Alloc.Requests.Bitmap.{inside, mark_range_lem}

abbrev pub in_request : AlignReq → ℕ → Bool
in_request req = inside req.offset req.len

-- Every request lies within the size.
abbrev pub AllFit : ℕ → List AlignReq → Type 0
AllFit size [] = Unit {0}
AllFit size (req ∷ reqs) = (req.offset + req.len ≤ size) × AllFit size reqs

-- No request has a byte that is taken.
abbrev pub AllFree : (ℕ → Bool) → List AlignReq → Type 0
AllFree taken [] = Unit {0}
AllFree taken (req ∷ reqs) =
    ((j : ℕ) → in_request req j ≡ true → taken j ≡ false) × AllFree taken reqs

-- No two requests share a byte.
abbrev pub AreDisjoint : List AlignReq → Type 0
AreDisjoint [] = Unit {0}
AreDisjoint (req ∷ reqs) = AllFree (in_request req) reqs × AreDisjoint reqs

AllFree-or :
    (f g : ℕ → Bool) (reqs : List AlignReq)
    → AllFree (λ j. f j || g j) reqs ↔ (AllFree f reqs × AllFree g reqs)
AllFree-or f g [] = (λ h. (tt, tt), λ h. tt)
AllFree-or f g (req ∷ reqs) =
    let rest = AllFree-or f g reqs in
    (
      λ h.
          let r = rest.0 h.1 in
          ((λ j e. ground (arith, h.0 j e), r.0), (λ j e. ground (arith, h.0 j e), r.1)),
      λ h. (λ j e. ground (arith, h.0.0 j e, h.1.0 j e), rest.1 (h.0.1, h.1.1)),
    )

-- What the outer loop asks, with the bytes marked so far.
abbrev IsFine : (ℕ → Bool) → ℕ → List AlignReq → Type 0
IsFine taken size reqs = AllFit size reqs × AllFree taken reqs × AreDisjoint reqs

IsFine-cons :
    (taken : ℕ → Bool) (size : ℕ) (req : AlignReq) (reqs : List AlignReq)
    → req.offset + req.len ≤ size
    → ((j : ℕ) → in_request req j ≡ true → taken j ≡ false)
    → IsFine (λ j. in_request req j || taken j) size reqs ↔ IsFine taken size (req ∷ reqs)
IsFine-cons taken size req reqs fits free =
    let split = AllFree-or (in_request req) taken reqs in
    (
      λ h. ((fits, h.0), (free, (split.0 h.1).1), ((split.0 h.1).0, h.2)),
      λ h. (h.0.1, split.1 (h.2.0, h.1.1), h.2.1),
    )

mark_all_lem :
    (reqs : List AlignReq) (bmp : List ℕ) (size : ℕ)
    → size ≤ 8 * length bmp
    → size < u64_mod
    → (IsFine (marked bmp) size reqs × ((bmp' : List ℕ) × (mark_all bmp size reqs ≡ some bmp')))
      ⊎ ((¬ IsFine (marked bmp) size reqs) × (mark_all bmp size reqs ≡ none))
unfolding mark_all check_overflow
mark_all_lem [] bmp size room small = inl ((tt, tt, tt), (bmp, refl))
mark_all_lem (req ∷ reqs) bmp size room small = elim (dec_le (req.offset + req.len) size) [
  | no too_long ↦ inr (λ h. too_long h.0.0, ground arith)
  | yes fits ↦ elim (mark_range_lem req.len bmp req.offset (omega arith)) [
    | inr ((j, within, taken), refused) ↦ inr (λ h. cc (h.1.0 j within), ground arith)
    | inl (bmp', done, m) ↦
        let same : marked bmp' ≡ (λ j. in_request req j || marked bmp j) = fun_ext m.now in
        let step = IsFine-cons (marked bmp) size req reqs fits m.was_free in
        elim (mark_all_lem reqs bmp' size (omega (arith, m.same_length)) small) [
          | inl (fine, rest) ↦
              inl (
                step.0 (subst (λ f. IsFine f size reqs) same fine),
                (rest.0, ground (arith, rest.1)),
              )
          | inr (bad, refused) ↦
              inr (λ h. bad (subst (λ f. IsFine f size reqs) (sym same) (step.1 h)), ground arith)
        ]
  ]
]

nothing_marked : (n j : ℕ) → marked (replicate n 0) j ≡ false
unfolding marked
nothing_marked n j = rw (zeros n (j / 8), zero-bit_and (2 ^ (j % 8)))
  where
    zeros : (n i : ℕ) → get_or {A = ℕ} (replicate n 0) i 0 ≡ 0
    zeros zero i = refl
    zeros (suc n) zero = refl
    zeros (suc n) (suc i) = zeros n i

AllFree-nothing : (reqs : List AlignReq) → AllFree (λ _. false) reqs
AllFree-nothing [] = tt
AllFree-nothing (req ∷ reqs) = (λ j e. refl, AllFree-nothing reqs)

module _ (malloc : Malloc) (heap : Heap) (size : ℕ) (reqs : List AlignReq) where
  -- When the requests are to be accepted.
  abbrev pub Acceptable : Type 0
  Acceptable = (no_requests reqs ≡ false) × AllFit size reqs × AreDisjoint reqs

  abbrev pub bitmap_at : ℕ
  bitmap_at = malloc heap (div_ceil_eight size)

  -- With memory for its bitmap, `check_align_req` accepts exactly a list of requests that is not
  -- empty, of which each lies within the size and no two share a byte. A refusal leaves the heap as
  -- it was, but after an acceptance the bitmap stays allocated, and its address is lost.
  pub check_align_req_lem :
      size < u64_mod
      → bitmap_at ≢ 0
      → (Acceptable × (check_align_req malloc heap size reqs ≡ (true, bitmap_at ∷ heap)))
        ⊎ ((¬ Acceptable) × (check_align_req malloc heap size reqs ≡ (false, heap)))
  unfolding check_align_req
  check_align_req_lem small found = elim (Bool-cases (no_requests reqs)) [
    | inl empty ↦ inr (λ a. cc, rw empty)
    | inr some_request ↦
        let len = div_ceil_eight size in
        let nothing : marked (replicate len 0) ≡ (λ _. false) = fun_ext (nothing_marked len) in
        elim (mark_all_lem reqs (replicate len 0) size
          (omega (arith, length-replicate {A = ℕ} len 0)) small) [
            | inl ((fit, _, disjoint), (bmp', done)) ↦
                inl ((some_request, fit, disjoint), ground arith)
            | inr (bad, refused) ↦ inr (
              λ a. bad (a.1, subst (λ f. AllFree f reqs) (sym nothing) (AllFree-nothing reqs), a.2),
              ground arith,
            )
          ]
  ]

-- ===== src/Urts/Simulate/Apart.antt =====
-- sgx-urts/src/simulate.rs: overwritten places that do not meet are overwritten as a whole.
use sgx_sdk_rs.Base.{ℕ, ◌+◌, ◌-◌, ◌≤◌, ◌≡◌, ◌⊎◌, ap, ◌∙◌, arith, List, [], ◌∷◌, ◌++◌, inl, inr}
use native.Mathlib.Decide.{dec_le}
use sgx_sdk_rs.Urts.Simulate.Paint.{Site, Covers, AllSites, AnySite, AllSites-append, ud2_nop}

abbrev pub Apart : Site → Site → Type 0
Apart x y = (x.position + x.len ≤ y.position) ⊎ (y.position + y.len ≤ x.position)

abbrev pub Pairwise : List Site → Type 0
Pairwise [] = Unit {0}
Pairwise (x ∷ xs) = AllSites (Apart x) xs × Pairwise xs

-- The site lies between two places.
abbrev pub Within : ℕ → ℕ → Site → Type 0
Within lo hi x = (lo ≤ x.position) × (x.position + x.len ≤ hi)

pub AllSites-map :
    (P Q : Site → Type 0) (xs : List Site)
    → ((x : Site) → P x → Q x)
    → AllSites P xs
    → AllSites Q xs
AllSites-map P Q [] f h = tt
AllSites-map P Q (x ∷ xs) f (p, h) = (f x p, AllSites-map P Q xs f h)

pub AllSites-all : (P : Site → Type 0) (xs : List Site) → ((x : Site) → P x) → AllSites P xs
AllSites-all P [] f = tt
AllSites-all P (x ∷ xs) f = (f x, AllSites-all P xs f)

pub Pairwise-append :
    (xs ys : List Site)
    → Pairwise xs
    → Pairwise ys
    → AllSites (λ x. AllSites (Apart x) ys) xs
    → Pairwise (xs ++ ys)
Pairwise-append [] ys _ k _ = k
Pairwise-append (x ∷ xs) ys (h, hs) k (a, as') =
    (AllSites-append (Apart x) xs ys h a, Pairwise-append xs ys hs k as')

-- Every byte that a site covers is that of such a site.
abbrev pub Lands : (ℕ → ℕ) → List Site → Type 0
Lands g xs =
    (j : ℕ)
    → AllSites (λ x. ¬ Covers x j) xs
      ⊎ AnySite (λ x. Covers x j × (g j ≡ ud2_nop (j - x.position))) xs

-- The whole site is overwritten.
abbrev pub Overwritten : (ℕ → ℕ) → Site → Type 0
Overwritten g x = (k : ℕ) → (x.len ≤ k) ⊎ (g (x.position + k) ≡ ud2_nop k)

not_both : (x y : Site) (j : ℕ) → Apart x y → Covers x j → Covers y j → ⊥
not_both x y j (inl before) at at' = omega (arith, before, at, at')
not_both x y j (inr behind) at at' = omega (arith, behind, at, at')

none-Covers :
    (x : Site) (j : ℕ) (xs : List Site)
    → Covers x j
    → AllSites (Apart x) xs
    → AllSites (λ y. ¬ Covers y j) xs
none-Covers x j xs at apart = AllSites-map _ _ xs (λ y a at'. not_both x y j a at at') apart

none_any :
    (P : Site → Type 0) (j : ℕ) (xs : List Site)
    → AllSites (λ y. ¬ Covers y j) xs
    → AnySite (λ y. Covers y j × P y) xs
    → ⊥
none_any P j [] none any = any
none_any P j (x ∷ xs) (free, none) (inl (at, _)) = free at
none_any P j (x ∷ xs) (free, none) (inr any) = none_any P j xs none any

Lands-tail :
    (g : ℕ → ℕ) (x : Site) (xs : List Site) → AllSites (Apart x) xs → Lands g (x ∷ xs) → Lands g xs
Lands-tail g x xs apart lands j = elim (lands j) [
  | inl (_, free) ↦ inl free
  | inr (inr any) ↦ inr any
  | inr (inl (at, _)) ↦ inl (none-Covers x j xs at apart)
]

first_Overwritten :
    (g : ℕ → ℕ) (x : Site) (xs : List Site)
    → AllSites (Apart x) xs
    → Lands g (x ∷ xs)
    → Overwritten g x
first_Overwritten g x xs apart lands k = elim (dec_le x.len k) [
  | yes past ↦ inl past
  | no within ↦
      let at : Covers x (x.position + k) = (omega arith, omega (arith, within)) in
      let same : x.position + k - x.position ≡ k = omega arith in
      elim (lands (x.position + k)) [
        | inl (free, _) ↦ absurd (free at)
        | inr (inl (_, byte)) ↦ inr (byte ∙ ap ud2_nop same)
        | inr (inr any) ↦ absurd (
            none_any (λ y. g (x.position + k) ≡ ud2_nop (x.position + k - y.position))
              (x.position + k) xs (none-Covers x (x.position + k) xs at apart) any)
      ]
]

pub all_Overwritten :
    (g : ℕ → ℕ) (xs : List Site) → Pairwise xs → Lands g xs → AllSites (Overwritten g) xs
all_Overwritten g [] _ lands = tt
all_Overwritten g (x ∷ xs) (apart, pairs) lands = (
  first_Overwritten g x xs apart lands,
  all_Overwritten g xs pairs (Lands-tail g x xs apart lands),
)

pub AllSites-both :
    (P Q : Site → Type 0) (xs : List Site)
    → AllSites P xs
    → AllSites Q xs
    → AllSites (λ x. P x × Q x) xs
AllSites-both P Q [] h k = tt
AllSites-both P Q (x ∷ xs) (p, h) (q, k) = ((p, q), AllSites-both P Q xs h k)

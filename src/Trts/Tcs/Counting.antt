-- ===== src/Trts/Tcs/Counting.antt =====
-- sgx-trts/src/enclave.rs: the numbers of thread control structures that are counted.
use sgx_sdk_rs.Base.{
  ℕ, zero, suc, ◌+◌, ◌-◌, ◌%◌, ◌^◌, ◌≤◌, ◌<◌, ◌≡◌, ◌⊎◌, inl, inr, refl, sym, ap, ◌∙◌, arith, List,
  [], ◌∷◌, ◌++◌, Bool, false, ltb, if◌then◌else◌, Bool-cases, length, take, drop, length-append,
  length-drop, length-take,
}
use sgx_sdk_rs.Trts.Tcs.{
  Layout, TcsNum, Traversal, counted, panicked, entry_count, load_times, is_static, is_eremove,
  is_dyn, add_if, count_entry, for_times, layouts, traversal_layout, rsgx_get_tcs_num, no_tcs,
}
use sgx_sdk_rs.Trts.Tcs.Expansion.{
  Expands, done, entry, empty_group, group, copies, count_all, count_all-append, number_of,
  for_times-counted, traversal_layout-Counts,
}

-- A table that stands for entries is traversed to its end, and they are counted.
layouts-Expands :
    (before rest es : List Layout)
    → Expands before rest es
    → (fuel : ℕ) → length before + length rest ≤ fuel
    → (n : TcsNum) → layouts (traversal_layout fuel) before rest n ≡ counted (count_all es n)
unfolding layouts traversal_layout for_times count_all
layouts-Expands _ _ _ (done before) fuel fits n = refl
layouts-Expands _ _ _ (entry before rest es l g later) fuel fits n = rw g (
    layouts-Expands (before ++ l ∷ []) rest es later fuel
      (omega (arith, fits, length-append before (l ∷ []))) (count_entry l n))
layouts-Expands _ _ _ (empty_group before rest es l g none later) fuel fits n =
    let body : TcsNum → Traversal = λ m.
      if ltb (length before) (entry_count l)
      then panicked
      else traversal_layout fuel (drop (length before - entry_count l) before) m in
    let nothing : for_times (load_times l) body n ≡ counted n =
      ap (λ times. for_times times body n) none in
    rw (g, nothing)
      (layouts-Expands (before ++ l ∷ []) rest es later fuel
        (omega (arith, fits, length-append before (l ∷ []))) n)
layouts-Expands _ _ _ (group before rest inner es l g inside stands later) zero fits n =
    absurd (omega (arith, fits))
layouts-Expands _ _ _ (group before rest inner es l g inside stands later) (suc fuel) fits n =
    let i = length before in
    let slice = drop (i - entry_count l) before in
    let body : TcsNum → Traversal =
      λ m. if ltb i (entry_count l) then panicked else traversal_layout (suc fuel) slice m in
    let inner_runs : (m : TcsNum) → body m ≡ counted (count_all inner m) = λ m. rw (within inside) (
      layouts-Expands [] slice inner stands fuel
        (omega (arith, fits, length-drop (i - entry_count l) before)) m) in
    rw (g, for_times-counted (load_times l) body inner inner_runs n)
      (layouts-Expands (before ++ l ∷ []) rest es later (suc fuel)
          (omega (arith, fits, length-append before (l ∷ []))) _
        ∙ ap counted (sym (count_all-append (copies (load_times l) inner) es n)))
  where
    within : {a b : ℕ} → a ≤ b → ltb b a ≡ false
    within h = ground arith

-- One counter.
tally : (Layout → Bool) → List Layout → ℕ → ℕ
tally test [] n = n
tally test (l ∷ ls) n = tally test ls (add_if (test l) n)

tally_lem :
    (test : Layout → Bool) (ls : List Layout) (n : ℕ)
    → n < 2 ^ 32
    → tally test ls n ≡ (n + number_of test ls) % 2 ^ 32
unfolding tally
tally_lem test [] n small = omega (arith, small)
tally_lem test (l ∷ ls) n small = elim (Bool-cases (test l)) [
  | inl e ↦ rw e (tally_lem test ls ((n + 1) % 2 ^ 32) (omega arith) ∙ omega arith)
  | inr e ↦ rw e (omega (arith, tally_lem test ls n small))
]

tally_zero :
    (test : Layout → Bool) (ls : List Layout) → tally test ls 0 ≡ number_of test ls % 2 ^ 32
tally_zero test ls = omega (arith, tally_lem test ls 0 (omega arith))

abbrev pub numbers : List Layout → TcsNum
numbers es = record {
  static_num = number_of is_static es % 2 ^ 32;
  eremove_num = number_of is_eremove es % 2 ^ 32;
  dyn_num = number_of is_dyn es % 2 ^ 32;
}

abbrev tallies : List Layout → TcsNum → TcsNum
tallies es n = record {
  static_num = tally is_static es n.static_num;
  eremove_num = tally is_eremove es n.eremove_num;
  dyn_num = tally is_dyn es n.dyn_num;
}

count_all-tallies : (es : List Layout) (n : TcsNum) → count_all es n ≡ tallies es n
unfolding count_all tally count_entry
count_all-tallies [] n = refl
count_all-tallies (l ∷ ls) n = count_all-tallies ls (count_entry l n)

count_all-numbers : (es : List Layout) → count_all es no_tcs ≡ numbers es
count_all-numbers es =
    count_all-tallies es no_tcs
    ∙ rw (tally_zero is_static es, tally_zero is_eremove es, tally_zero is_dyn es) refl

-- A layout table of at most the length stated, whose groups reach only layouts in front of them, is
-- traversed to its end, and the numbers are those of the static, removable and dynamic thread control
-- structures in all that the table stands for, modulo 2 ^ 32. Any other table makes it panic: the
-- recursion always ends.
pub rsgx_get_tcs_num_lem :
    (table : List Layout) (num : ℕ)
    → ((es : List Layout)
        → num ≤ length table
        → Expands [] (take num table) es
        → rsgx_get_tcs_num table num ≡ counted (numbers es))
      × ((rsgx_get_tcs_num table num ≡ panicked)
          ⊎ ((num ≤ length table) × ((es : List Layout) × Expands [] (take num table) es)))
unfolding rsgx_get_tcs_num traversal_layout
rsgx_get_tcs_num_lem table num = (
  λ es fits stands. rw (small fits) (
      layouts-Expands [] (take num table) es stands num (omega (arith, fits, length-take num table))
        no_tcs
      ∙ ap counted (count_all-numbers es)),
  elim (Bool-cases (ltb (length table) num)) [
    | inl out ↦ inl (rw out refl)
    | inr e ↦
        elim (traversal_layout-Counts (suc num) (take num table)
          (omega (arith, length-take num table))) [
            | inl all ↦ inl (rw e (all no_tcs))
            | inr (es, stands, runs) ↦ inr (ground (arith, e), (es, stands))
          ]
  ],
)
  where
    small : num ≤ length table → ltb (length table) num ≡ false
    small h = ground arith

-- ===== src/Trts/Tcs/Tests.antt =====
-- Layout tables and what is counted in them.
use sgx_sdk_rs.Base.{◌+◌, ◌^◌, ◌≤◌, ◌≡◌, ◌⊎◌, refl, List, [], ◌∷◌, take, length}
use sgx_sdk_rs.Trts.Tcs.{
  Layout, counted, panicked, rsgx_get_tcs_num, traversal_layout, layouts, count_entry, for_times,
}
use sgx_sdk_rs.Trts.Tcs.Expansion.{Expands}
use sgx_sdk_rs.Trts.Tcs.Counting.{numbers, rsgx_get_tcs_num_lem}

abbrev tcs : Layout
tcs = record { id = 5; attributes = 3; page_count = 1; content_offset = 64; si_flags = 0x100 }

abbrev tcs_dyn : Layout
tcs_dyn = record { id = 14; attributes = 8; page_count = 1; content_offset = 64; si_flags = 0x100 }

-- Three more times what the two layouts before it stand for.
abbrev threads : Layout
threads = record {
  id = 2 ^ 12 + 5;
  attributes = 2;
  page_count = 3;
  content_offset = 0;
  si_flags = 0;
}

abbrev table : List Layout
table = tcs ∷ tcs_dyn ∷ threads ∷ []

rsgx_get_tcs_num_run :
    rsgx_get_tcs_num table 3 ≡ counted (record { static_num = 4; eremove_num = 0; dyn_num = 4 })
unfolding rsgx_get_tcs_num traversal_layout layouts count_entry for_times
rsgx_get_tcs_num_run = refl

-- The group reaches in front of the table.
out_of_range_run : rsgx_get_tcs_num (tcs ∷ threads ∷ []) 2 ≡ panicked
unfolding rsgx_get_tcs_num traversal_layout layouts count_entry for_times
out_of_range_run = refl

rsgx_get_tcs_num_lem_example :
    ((es : List Layout)
      → 3 ≤ length table
      → Expands [] (take 3 table) es
      → rsgx_get_tcs_num table 3 ≡ counted (numbers es))
    × ((rsgx_get_tcs_num table 3 ≡ panicked)
        ⊎ ((3 ≤ length table) × ((es : List Layout) × Expands [] (take 3 table) es)))
rsgx_get_tcs_num_lem_example = rsgx_get_tcs_num_lem table 3

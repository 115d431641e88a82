-- ===== src/Trts/Memeq/Tests.antt =====
-- The comparison in constant time at concrete inputs.
use sgx_sdk_rs.Base.{◌≡◌, ◌≢◌, ◌⊎◌, arith, refl, List, [], ◌∷◌, ℕ, IsBytes}
use sgx_sdk_rs.Trts.{Slice}
use sgx_sdk_rs.Trts.Memeq.{consttime_memequal}
use sgx_sdk_rs.Trts.Memeq.Equal.{consttime_memequal_lem}

abbrev tag : List ℕ
tag = 200 ∷ 17 ∷ []

abbrev forged : List ℕ
forged = 200 ∷ 16 ∷ []

tag-IsBytes : IsBytes tag
tag-IsBytes = (omega arith, (omega arith, tt))

forged-IsBytes : IsBytes forged
forged-IsBytes = (omega arith, (omega arith, tt))

consttime_memequal_lem_example :
    ((tag ≡ forged) × (consttime_memequal tag forged 2 ≡ 1))
    ⊎ ((tag ≢ forged) × (consttime_memequal tag forged 2 ≡ 0))
consttime_memequal_lem_example = consttime_memequal_lem tag forged tag-IsBytes forged-IsBytes refl

abbrev tag_at : Slice
tag_at = record { addr = 0x1000; bytes = tag }

abbrev forged_at : Slice
forged_at = record { addr = 0x2000; bytes = forged }

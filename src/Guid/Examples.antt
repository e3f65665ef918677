-- ===== src/Guid/Examples.antt =====
-- The theorems on the generator of ids at a concrete state.
use repeatr.Base.{ℕ, ◌≡◌, refl, some, List, [], ◌∷◌, length, AllBelow, get_elem?, arith}
use repeatr.Guid.{Globals, new}
use repeatr.Guid.Burst.{IsReady, Ascending, burst, burst-Ascending, new_format}

abbrev draws : List ℕ
draws = 31 ∷ 0 ∷ 1 ∷ 2 ∷ 3 ∷ 4 ∷ 5 ∷ 6 ∷ 7 ∷ 8 ∷ 9 ∷ 10 ∷ 11 ∷ 12 ∷ 13 ∷ 14 ∷ []

abbrev globals : Globals
globals = record { last_push_time = 1500000000000; last_rand_chars = draws }

draws-AllBelow : AllBelow 32 draws
draws-AllBelow = ground arith

globals-IsReady : IsReady globals
globals-IsReady = record { sixteen = refl; below = draws-AllBelow }

burst-Ascending_example : Ascending (burst 3 1500000000000 draws globals)
burst-Ascending_example =
    burst-Ascending 3 1500000000000 draws globals refl globals-IsReady (omega arith)

new_format_example :
    IsReady (new 1500000000000 draws globals).1
    × (length (new 1500000000000 draws globals).0 ≡ 26)
    × (get_elem? (new 1500000000000 draws globals).0 8 ≡ some 45)
    × (get_elem? (new 1500000000000 draws globals).0 17 ≡ some 45)
new_format_example = new_format 1500000000000 draws globals globals-IsReady refl draws-AllBelow

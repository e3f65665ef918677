-- ===== src/Catalog/Examples.antt =====
-- The theorems on catalogs at a concrete catalog.
use repeatr.Base.{ℕ, ◌≡◌, refl, [], ◌∷◌, ◌++◌, Text, str, text_eq, arith}
use repeatr.Base.Dict.{lookup, NodupKeys, lookup-nil, lookup-cons}
use repeatr.Formula.{Ware}
use repeatr.Catalog.{Book, latest, all, release}
use repeatr.Catalog.Laws.{latest-release}
use repeatr.Catalog.Slices as Slices
use repeatr.Catalog.Slices.{
  Slice, Arrays, SharedBook, IsSound, shows, shows_track, release-appends, release-clobbers,
}

abbrev ware : Text → Ware
ware hash = record { kind = str "tar"; hash = hash }

abbrev book : Book
book = record { id = str "gcc"; tracks = ([], ware (str "a") ∷ []) ∷ (str "4.x", []) ∷ [] }

book-NodupKeys : NodupKeys book.tracks
unfolding lookup text_eq
book-NodupKeys = (refl, (refl, tt))

latest-release_example :
    (latest (release [] (ware (str "b")) book) ≡ ware (str "b"))
    × (all (release [] (ware (str "b")) book) ≡ all book ++ (ware (str "b") ∷ []))
latest-release_example = latest-release (ware (str "b")) book book-NodupKeys

-- An array with room for two, of which the default track shows one.
abbrev arrays : Arrays
arrays = record { cells = λ _. ware (str "a") ∷ ware [] ∷ []; unused = 1 }

abbrev slice : Slice
slice = record { array = 0; len = 1 }

abbrev shared : SharedBook
shared = record { id = str "gcc"; tracks = ([], slice) ∷ [] }

shared-NodupKeys : NodupKeys shared.tracks
unfolding lookup
shared-NodupKeys = (refl, tt)

shared-IsSound : IsSound arrays shared
shared-IsSound name s e = ground (arith, lookup-cons name [] slice [], lookup-nil {V = Slice} name)

abbrev spare : ℕ → ℕ
spare n = n

release-clobbers_example :
    let (first, m') = Slices.release spare [] (ware (str "b")) shared arrays in
    let (second, m'') = Slices.release spare [] (ware (str "c")) shared m' in
    shows_track m'' (lookup [] first.tracks) ≡ shows arrays slice ++ (ware (str "c") ∷ [])
unfolding lookup text_eq
release-clobbers_example =
    release-clobbers spare [] (ware (str "b")) (ware (str "c")) shared arrays slice shared-NodupKeys
      refl (omega arith)

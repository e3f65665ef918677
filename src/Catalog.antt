-- ===== src/Catalog.antt =====
-- rsrch/model/catalog/catalog.go, with tracks as lists of values. `Catalog/Slices.antt` has the
-- same `Release` over Go's slices, which share their arrays.
pub mod Laws
pub mod Slices
mod Examples
use repeatr.Base.{Option, none, some, List, [], ◌∷◌, ◌++◌, Text, text_eq, Bool, ◌==◌, ◌&&◌}
use repeatr.Base.Dict.{Dict, lookup, insert}
use repeatr.Formula.{Ware}

-- `type Book struct`
pub record Book : Type 0 where
  pub id : Text
  pub tracks : Dict Text (List Ware)

-- `SKU{}`
abbrev pub no_sku : Ware
no_sku = record { kind = []; hash = [] }

-- `sku == (SKU{})`
abbrev pub is_no_sku : Ware → Bool
is_no_sku w = w.kind == [] && w.hash == []

abbrev pub skus_of : Option (List Ware) → List Ware
skus_of none = []
skus_of (some skus) = skus

-- `b.Tracks[name]`, which is nil for a missing key.
abbrev pub track : Text → Dict Text (List Ware) → List Ware
track name tracks = skus_of (lookup name tracks)

-- `New`
abbrev pub new : Text → Book
new id = record { id = id; tracks = [] }

abbrev last_or : Ware → List Ware → Ware
last_or w [] = w
last_or w (x ∷ xs) = last_or x xs

-- `Latest`
unfoldable pub latest : Book → Ware
latest b = last_or no_sku (track [] b.tracks)

-- `All`
unfoldable pub all : Book → List Ware
all b = track [] b.tracks

-- The loop of `clone`.
unfoldable pub copy_tracks {ℓ} : {V : Type ℓ} → Dict Text V → Dict Text V → Dict Text V
copy_tracks [] into = into
copy_tracks ((k, v) ∷ tracks) into = copy_tracks tracks (insert k v into)

-- `clone`
unfoldable pub clone : Book → Book
unfolding copy_tracks
clone b = record { id = b.id; tracks = copy_tracks b.tracks [] }

-- `Release`
unfoldable pub release : Text → Ware → Book → Book
release name ware b =
    let next = clone b in
    record next { tracks = insert name (track name next.tracks ++ (ware ∷ [])) next.tracks }

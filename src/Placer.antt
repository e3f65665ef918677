-- ===== src/Placer.antt =====
-- rio/placer/assembler.go: a filesystem is put together from its parts, by a placer that is an argument, over any
-- operating system. A panic is `inl`.
pub mod Order
mod Examples
use repeatr.Base.{Bool, Text, Option, none, some, List, [], ◌∷◌, ◌++◌, ◌⊎◌, inl, inr}
use repeatr.Base.Paths.{path_join}
use repeatr.Base.Sort.{sort_by}
use repeatr.Provision.{AssemblyPart}
use repeatr.Emplace.{Call, Errno, Reply, Panic, Result, value, panicked}
use repeatr.Emplace.Mkdir.{mkdir_all_with_attribs, default_dir, dir_name}
use mathlib.Core.List.{reverse}

-- `rio.ErrAssembly` from the making of a directory, a panic of the placer, and what does not happen: the fuel of
-- `MkdirAll` is always enough, and it does not panic.
pub data AssemblyPanic (E : Type 0) : Type 0 where
  assembly_error : Errno → AssemblyPanic E
  placer_panic : E → AssemblyPanic E
  no_fuel : AssemblyPanic E
  mkdir_panic : Panic → AssemblyPanic E

-- `rio.Placer`: from the source, the destination and whether it is writable and bare.
abbrev pub Placer : Type 0 → Type 0 → Type 0
Placer E M = Text → Text → Bool → Bool → List Call → (E ⊎ M) × List Call

-- The target by which parts are sorted.
abbrev pub target_of : AssemblyPart → Text
target_of part = part.target_path

module _ {E M : Type 0} (os : List Call → Call → Reply) (placer : Placer E M) (base : Text) where
  abbrev dest_of : AssemblyPart → Text
  dest_of part = path_join (base ∷ part.target_path ∷ [])

  -- After the placer: its emplacement is recorded.
  abbrev pub recorded :
      (List M → List Call → (AssemblyPanic E ⊎ List M) × List Call)
      → List M
      → (E ⊎ M) × List Call
      → (AssemblyPanic E ⊎ List M) × List Call
  recorded rest emplacements (inl e, calls) = (inl (placer_panic e), calls)
  recorded rest emplacements (inr m, calls) = rest (emplacements ++ (m ∷ [])) calls

  abbrev placed :
      (List M → List Call → (AssemblyPanic E ⊎ List M) × List Call)
      → AssemblyPart
      → List M
      → List Call
      → (AssemblyPanic E ⊎ List M) × List Call
  placed rest part emplacements calls =
      recorded rest emplacements
        (placer part.source_path (dest_of part) part.writable part.bare_mount calls)

  -- After `MkdirAll` of the directory that the part goes into.
  abbrev pub made :
      (List M → List Call → (AssemblyPanic E ⊎ List M) × List Call)
      → AssemblyPart
      → List M
      → Result (Option (Option Errno))
      → List Call
      → (AssemblyPanic E ⊎ List M) × List Call
  made rest part emplacements (panicked p) calls = (inl (mkdir_panic p), calls)
  made rest part emplacements (value none) calls = (inl no_fuel, calls)
  made rest part emplacements (value (some (some e))) calls = (inl (assembly_error e), calls)
  made rest part emplacements (value (some none)) calls = placed rest part emplacements calls

  -- The loop over the sorted parts.
  unfoldable pub place_parts :
      List AssemblyPart → List M → List Call → (AssemblyPanic E ⊎ List M) × List Call
  unfolding path_join dir_name mkdir_all_with_attribs
  place_parts [] emplacements calls = (inr emplacements, calls)
  place_parts (part ∷ parts) emplacements calls =
      let (r, later) = mkdir_all_with_attribs os default_dir (dir_name (dest_of part)) calls in
      made (place_parts parts) part emplacements r later

  -- `Assemble`
  unfoldable pub assemble : List AssemblyPart → List Call → (AssemblyPanic E ⊎ List M) × List Call
  unfolding sort_by place_parts
  assemble parts calls = place_parts (sort_by target_of parts) [] calls

module _ {E M W : Type 0} (teardown_one : M → W → Option E × W) where
  abbrev torn : (W → Option E × W) → Option E × W → Option E × W
  torn rest (some e, w) = (some e, w)
  torn rest (none, w) = rest w

  unfoldable pub teardown_each : List M → W → Option E × W
  teardown_each [] w = (none, w)
  teardown_each (m ∷ emplacements) w = torn (teardown_each emplacements) (teardown_one m w)

  -- `Teardown`, from the last to the first; a panic ends it.
  unfoldable pub teardown : List M → W → Option E × W
  unfolding teardown_each
  teardown emplacements = teardown_each (reverse emplacements)

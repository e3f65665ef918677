-- ===== src/Placer/Examples.antt =====
-- The theorems on assembly at two parts, one inside the other.
use repeatr.Base.{
  ◌≡◌, refl, false, true, Text, str, text_eq, nat_eq, ne-of-==, Option, none, List, [], ◌∷◌, ◌++◌,
  inr, text_ltb,
}
use repeatr.Base.Sort.{IsKeyed}
use repeatr.Provision.{AssemblyPart}
use repeatr.Fs.{epochwhen}
use repeatr.Emplace.{Call, Reply, file_info}
use repeatr.Placer.{Placer, target_of, assemble, teardown}
use repeatr.Placer.Order.{assemble_perm}
use mathlib.Core.List.Permᴰ.{Permᴰ}

-- A system where every directory is there already.
abbrev os : List Call → Call → Reply
os calls c = file_info true epochwhen

-- A placer that always succeeds; its emplacement is the path.
abbrev placer : Placer Text Text
placer source dest writable bare calls = (inr dest, calls)

abbrev part : Text → AssemblyPart
part target = record {
  target_path = target;
  source_path = str "/src";
  writable = true;
  bare_mount = false;
}

abbrev parts : List AssemblyPart
parts = part (str "/app/data") ∷ part (str "/app") ∷ []

abbrev reordered : List AssemblyPart
reordered = part (str "/app") ∷ part (str "/app/data") ∷ []

assemble_runs :
    (assemble os placer (str "/base") parts []).0
    ≡ inr (str "/base/app" ∷ str "/base/app/data" ∷ [])
unfolding assemble text_ltb text_eq nat_eq
assemble_runs = refl

-- Each emplacement that is torn down is noted.
abbrev note : Text → List Text → Option Text × List Text
note m done = (none, done ++ (m ∷ []))

teardown_runs :
    teardown note (str "/base/app" ∷ str "/base/app/data" ∷ []) []
    ≡ (none, str "/base/app/data" ∷ str "/base/app" ∷ [])
unfolding teardown
teardown_runs = refl

parts-IsKeyed : IsKeyed target_of parts
unfolding text_eq
parts-IsKeyed = ((λ e. absurd (ne-of-== (str "/app/data") (str "/app") refl e), tt), (tt, tt))

assemble_perm_example :
    assemble os placer (str "/base") parts [] ≡ assemble os placer (str "/base") reordered []
assemble_perm_example =
    assemble_perm os placer (str "/base") parts reordered [] (Permᴰ.swap refl refl) parts-IsKeyed

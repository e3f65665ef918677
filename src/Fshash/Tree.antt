-- ===== src/Fshash/Tree.antt =====
-- What `Hash` computes, described on trees: a record's hash takes in its children's.
use repeatr.Base.{
  ℕ, ◌≡◌, refl, sym, ap, false, Text, nat_eq, contains, List, [], ◌∷◌, ◌++◌, map, if◌then◌else◌,
}
use repeatr.Base.Paths.{has_prefix, slash}
use repeatr.Fs.{Item, bytes_item, array_break}
use repeatr.Fshash.{Record, name_of, is_dir_record}
use repeatr.Fshash.State.{dir_opening, file_items}
use mathlib.Core.List.{append_assoc}

-- A list of trees: the first one's record and children, and the others.
pub data Forest : Type 0 where
  bare_ground : Forest
  tree : Record → Forest → Forest → Forest

-- The records of a forest, each before its children.
unfoldable pub preorder : Forest → List Record
preorder bare_ground = []
preorder (tree r kids rest) = r ∷ (preorder kids ++ preorder rest)

-- A name is one element longer than another: some bytes that are not slashes, and one byte that may be.
abbrev pub IsStep : Text → Text → Type 0
IsStep name parent =
    (e : Text) × (c : ℕ) × (name ≡ parent ++ (e ++ (c ∷ []))) × (contains e slash ≡ false)

-- What follows a tree is not below its record.
abbrev pub IsApart : Text → Forest → Type 0
IsApart name bare_ground = Unit
IsApart name (tree r kids rest) = has_prefix (name_of r) name ≡ false

-- Each record's name is one element longer than that of the record above it, and a tree that follows another
-- does not belong below it.
abbrev pub IsNested : Text → Forest → Type 0
IsNested name bare_ground = Unit
IsNested name (tree r kids rest) =
    IsStep (name_of r) name
    × IsNested (name_of r) kids
    × IsApart (name_of r) rest
    × IsNested name rest

-- A name is not below the last tree.
abbrev pub IsPast : Text → Forest → Type 0
IsPast name bare_ground = Unit
IsPast name (tree r kids bare_ground) = has_prefix name (name_of r) ≡ false
IsPast name (tree r kids (tree q more rest)) = IsPast name (tree q more rest)

-- Records are a tree in preorder.
abbrev pub IsTreeOf : List Record → Record → Forest → Type 0
IsTreeOf lines root kids = (lines ≡ root ∷ preorder kids) × IsNested (name_of root) kids

-- The items that a directory's hash is of, from what its children hand up.
abbrev pub dir_items : Record → List Text → List Item
dir_items r hashes = dir_opening r ++ map bytes_item hashes ++ (array_break ∷ [])

module _ (digest : List Item → Text) where
  -- What one record hands up: a directory's hash takes in what is below it, and of another kind of
  -- file the hash goes first and what is below it goes up as well.
  abbrev pub handed : Record → List Text → List Text
  handed r below =
      if is_dir_record r then digest (dir_items r below) ∷ [] else digest (file_items r) ∷ below

  unfoldable pub tree_hashes : Forest → List Text
  tree_hashes bare_ground = []
  tree_hashes (tree r kids rest) = handed r (tree_hashes kids) ++ tree_hashes rest

abbrev pub beside : Forest → Forest → Forest
beside bare_ground others = others
beside (tree r kids rest) others = tree r kids (beside rest others)

pub preorder-beside : (f g : Forest) → preorder (beside f g) ≡ preorder f ++ preorder g
unfolding preorder
preorder-beside bare_ground g = refl
preorder-beside (tree r kids rest) g =
    rw (preorder-beside rest g) (ap (λ l. r ∷ l) (rw append_assoc refl))

-- One more tree at the end.
pub IsNested-beside :
    (name : Text) (f : Forest) (r : Record) (kids : Forest)
    → IsNested name f
    → IsPast (name_of r) f
    → IsStep (name_of r) name
    → IsNested (name_of r) kids
    → IsNested name (beside f (tree r kids bare_ground))
IsNested-beside name bare_ground r kids n p s k = (s, k, tt, tt)
IsNested-beside name (tree q more bare_ground) r kids (t, m, a, n) p s k = (t, m, p, (s, k, tt, tt))
IsNested-beside name (tree q more (tree x xs rest)) r kids (t, m, a, n) p s k =
    (t, m, a, IsNested-beside name (tree x xs rest) r kids n p s k)

pub IsPast-beside :
    (name : Text) (f : Forest) (r : Record) (kids : Forest)
    → has_prefix name (name_of r) ≡ false
    → IsPast name (beside f (tree r kids bare_ground))
IsPast-beside name bare_ground r kids h = h
IsPast-beside name (tree q more bare_ground) r kids h = h
IsPast-beside name (tree q more (tree x xs rest)) r kids h =
    IsPast-beside name (tree x xs rest) r kids h

pub tree_hashes-beside :
    (digest : List Item → Text) (f g : Forest)
    → tree_hashes digest (beside f g) ≡ tree_hashes digest f ++ tree_hashes digest g
unfolding tree_hashes
tree_hashes-beside digest bare_ground g = refl
tree_hashes-beside digest (tree r kids rest) g = rw (tree_hashes-beside digest rest g) (
    sym (
      append_assoc (handed digest r (tree_hashes digest kids)) (tree_hashes digest rest)
        (tree_hashes digest g)))

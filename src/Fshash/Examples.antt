-- ===== src/Fshash/Examples.antt =====
-- A tree of two files and two directories: tests of lib/fshash, and the theorems at it.
use repeatr.Base.{
  ℕ, ◌≡◌, refl, Text, str, text_eq, nat_eq, Option, none, some, List, [], ◌∷◌, length, ne-of-==,
  text_ltb, ◌⊎◌, inl, inr,
}
use repeatr.Base.Sort.{IsKeyed}
use repeatr.Fs.{Item, marshal, type_reg, type_dir}
use repeatr.Fshash.{
  Record, name_of, Panic, missing_tree, slice_bounds, default_root, normalize, iterator,
}
use repeatr.Base.Paths.{has_prefix}
use repeatr.Fshash.Tree.{Forest, bare_ground, tree, preorder, tree_hashes, handed, IsTreeOf}
use repeatr.Fshash.Growth.{last_answer}
use repeatr.Fshash.Outcome.{hash_bucket-answer}
use repeatr.Fshash.State.{hash_bucket}
use repeatr.Fshash.Refinement.{IsNormal, IsTreeHash, hash_bucket-IsTreeHash, hash_bucket_perm}
use mathlib.Core.List.Permᴰ.{Permᴰ}

-- A stand-in for the hash function.
abbrev digest : List Item → Text
digest items = length items ∷ []

abbrev line : Text → ℕ → Record
line name kind = record {
  metadata = record default_root.metadata { name = name; typeflag = kind };
  content_hash = str "c";
}

abbrev lines : List Record
lines = line (str "./b") type_reg ∷ line (str "./a/") type_dir ∷ line (str "./a/f") type_reg ∷ []

abbrev reordered : List Record
reordered =
    line (str "./a/") type_dir ∷ line (str "./b") type_reg ∷ line (str "./a/f") type_reg ∷ []

lines-IsNormal : IsNormal lines
unfolding IsNormal normalize text_eq nat_eq
lines-IsNormal = (refl, (refl, (refl, tt)))

hash_bucket_runs : hash_bucket digest lines ≡ some (inr (some (22 ∷ [])))
unfolding hash_bucket text_eq nat_eq iterator text_ltb marshal
hash_bucket_runs = refl

missing_runs : hash_bucket digest (line (str "./a/b/") type_dir ∷ []) ≡ some (inl missing_tree)
unfolding hash_bucket text_eq nat_eq iterator text_ltb marshal
missing_runs = refl

-- A path that was recorded twice is no `PathCollision`, but a slice out of bounds.
repeated_runs :
    hash_bucket digest (line (str "./a") type_reg ∷ line (str "./a") type_reg ∷ [])
    ≡ some (inl slice_bounds)
unfolding hash_bucket text_eq nat_eq iterator text_ltb marshal
repeated_runs = refl

hash_bucket-IsTreeHash_example :
    (outcome : Panic ⊎ Option Text) × (hash_bucket digest lines ≡ some outcome)
    × IsTreeHash digest (iterator lines) outcome
hash_bucket-IsTreeHash_example = hash_bucket-IsTreeHash digest lines lines-IsNormal

lines-IsKeyed : IsKeyed name_of lines
unfolding text_eq
lines-IsKeyed = (
  (
    λ e. absurd (ne-of-== (str "./b") (str "./a/") refl e),
    (λ e. absurd (ne-of-== (str "./b") (str "./a/f") refl e), tt),
  ),
  ((λ e. absurd (ne-of-== (str "./a/") (str "./a/f") refl e), tt), (tt, tt)),
)

hash_bucket_perm_example : hash_bucket digest lines ≡ hash_bucket digest reordered
hash_bucket_perm_example =
    hash_bucket_perm digest lines reordered (Permᴰ.swap refl refl) lines-IsKeyed

abbrev kids : Forest
kids =
    tree (line (str "./a/") type_dir) (tree (line (str "./a/f") type_reg) bare_ground bare_ground)
      (tree (line (str "./b") type_reg) bare_ground bare_ground)

kids-IsTreeOf : IsTreeOf (iterator lines) default_root kids
unfolding iterator text_eq nat_eq text_ltb preorder has_prefix
kids-IsTreeOf = (
  refl,
  (
    (str "a", 47, refl, refl),
    (([], 102, refl, refl), tt, tt, tt),
    refl,
    (([], 98, refl, refl), tt, tt, tt),
  ),
)

hash_bucket-answer_example :
    hash_bucket digest lines
    ≡ some (inr (last_answer none (handed digest default_root (tree_hashes digest kids))))
unfolding iterator text_eq nat_eq text_ltb
hash_bucket-answer_example =
    hash_bucket-answer digest lines default_root kids lines-IsNormal kids-IsTreeOf
      (refl, (refl, (refl, (refl, tt))))

-- ===== src/Fshash/Unique.antt =====
-- Records are at most one tree in preorder.
use repeatr.Base.{
  ◌≡◌, refl, sym, ◌∙◌, true, false, Text, List, [], ◌∷◌, ◌++◌, arith, Bool-cases, inl, inr,
}
use repeatr.Base.Paths.{has_prefix}
use repeatr.Fshash.{Record, name_of}
use repeatr.Fshash.Tree.{Forest, bare_ground, tree, preorder, IsApart, IsNested, IsTreeOf}
use repeatr.Fshash.Shape.{has_prefix_trans, IsStep-below}
use mathlib.Core.List.{append_assoc, append-nil}

-- What comes next is not below a name.
abbrev Follows : Text → List Record → Type 0
Follows name [] = Unit
Follows name (r ∷ rs) = has_prefix (name_of r) name ≡ false

Follows-below :
    (name upper : Text) (xs : List Record)
    → has_prefix name upper ≡ true
    → Follows upper xs
    → Follows name xs
Follows-below name upper [] h f = tt
Follows-below name upper (x ∷ xs) h f = elim (Bool-cases (has_prefix (name_of x) name)) [
  | inl below ↦ absurd (let again = has_prefix_trans (name_of x) name upper below h in ground arith)
  | inr past ↦ past
]

Follows-rest :
    (name upper : Text) (rest : Forest) (xs : List Record)
    → has_prefix name upper ≡ true
    → IsApart name rest
    → Follows upper xs
    → Follows name (preorder rest ++ xs)
unfolding preorder
Follows-rest name upper bare_ground xs h a f = Follows-below name upper xs h f
Follows-rest name upper (tree r kids rest) xs h a f = a

forest_unique :
    (name : Text) (f g : Forest) (xs ys : List Record)
    → IsNested name f
    → IsNested name g
    → Follows name xs
    → Follows name ys
    → preorder f ++ xs ≡ preorder g ++ ys
    → (f ≡ g) × (xs ≡ ys)
unfolding preorder
forest_unique name bare_ground bare_ground xs ys n m u v e = (refl, e)
forest_unique name bare_ground (tree q ks qs) [] ys n m u v e = cc
forest_unique name bare_ground (tree q ks qs) (x ∷ xs) ys n (s, k, a, m) u v e =
    let same : x ≡ q = cc in
    let below = IsStep-below (name_of q) name s in
    let past : has_prefix (name_of q) name ≡ false = rw (← same) u in absurd (ground arith)
forest_unique name (tree q ks qs) bare_ground xs [] n m u v e = cc
forest_unique name (tree q ks qs) bare_ground xs (y ∷ ys) (s, k, a, n) m u v e =
    let same : y ≡ q = cc in
    let below = IsStep-below (name_of q) name s in
    let past : has_prefix (name_of q) name ≡ false = rw (← same) v in absurd (ground arith)
forest_unique name (tree r ks rs) (tree q ls qs) xs ys (s, k, a, n) (t, l, b, m) u v e =
    let same : r ≡ q = cc in
    let tails : preorder ks ++ (preorder rs ++ xs) ≡ preorder ls ++ (preorder qs ++ ys) =
      rw
        (
          ← append_assoc (preorder ks) (preorder rs) xs,
          ← append_assoc (preorder ls) (preorder qs) ys,
        )
        cc in
    let (kids, others) =
      forest_unique (name_of r) ks ls (preorder rs ++ xs) (preorder qs ++ ys) k (rw same l)
        (Follows-rest (name_of r) name rs xs (IsStep-below (name_of r) name s) a u)
        (rw same (Follows-rest (name_of q) name qs ys (IsStep-below (name_of q) name t) b v))
        tails in
    let (rest, ends) = forest_unique name rs qs xs ys n m u v others in
    (rw (same, kids, rest) refl, ends)

-- Two trees that have the same lines as their preorder are the same.
pub IsTreeOf-unique :
    (lines : List Record) (root other : Record) (kids more : Forest)
    → IsTreeOf lines root kids
    → IsTreeOf lines other more
    → (root ≡ other) × (kids ≡ more)
IsTreeOf-unique lines root other kids more (e, n) (f, m) =
    let same : root ≡ other = cc in
    let parts : preorder kids ≡ preorder more = cc in
    let (all, ends) =
      forest_unique (name_of root) kids more [] [] n (rw same m) tt tt
        (append-nil (preorder kids) ∙ parts ∙ sym (append-nil (preorder more))) in
    (same, all)

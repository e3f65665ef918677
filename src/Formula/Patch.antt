-- ===== src/Formula/Patch.antt =====
-- `Env.Merge` and `Formula.ApplyPatch` (api/def/formulaAction_ops.go, formula_ops.go).
use repeatr.Base.{
  ◌≢◌, ◌≡◌, refl, ◌∙◌, Option, none, some, [], ◌∷◌, Text, text_eq, arith, ◌==◌, if◌then◌else◌,
  Option-cases, inl, inr,
}
use repeatr.Base.Dict.{
  Dict, lookup, insert, NodupKeys, lookup-nil, lookup-cons, lookup-insert, insert-NodupKeys,
}
use repeatr.Formula.{Formula}
use repeatr.Formula.Clone.{clone_env, clone_env-eq}

-- `if _, ok := keep[k]; !ok { keep[k] = v }`
abbrev merge_one : Text → Text → Dict Text Text → Option Text → Dict Text Text
merge_one k v keep none = insert k v keep
merge_one k v keep (some _) = keep

-- `Env.Merge`
unfoldable pub merge : Dict Text Text → Dict Text Text → Dict Text Text
merge keep [] = keep
merge keep ((k, v) ∷ other) = merge (merge_one k v keep (lookup k keep)) other

-- `ApplyPatch`
unfoldable pub apply_patch : Formula → Formula → Formula
unfolding merge
apply_patch f f2 = record f {
  action = record f.action { env = merge (clone_env f2.action.env) f.action.env };
}

-- The first one, or else the second one.
abbrev pub first_of : Option Text → Option Text → Option Text
first_of none y = y
first_of (some x) y = some x

lookup-merge_one :
    (j k v : Text) (keep : Dict Text Text)
    → lookup j (merge_one k v keep (lookup k keep))
      ≡ first_of (lookup j keep) (if k == j then some v else none)
lookup-merge_one j k v keep = elim (Option-cases (lookup k keep)) [
  | inl e ↦ rw e (ground (arith, lookup-insert j k v keep))
  | inr (w, e) ↦ rw e (ground arith)
]

first_of_assoc : (x y z : Option Text) → first_of (first_of x y) z ≡ first_of x (first_of y z)
first_of_assoc none y z = refl
first_of_assoc (some x) y z = refl

-- In the merged map a key has the value that the first map gives it, or else the one that the
-- second map does; keys that neither has are not in it.
pub lookup-merge :
    (k : Text) (keep other : Dict Text Text)
    → lookup k (merge keep other) ≡ first_of (lookup k keep) (lookup k other)
unfolding merge
lookup-merge k keep [] = rw lookup-nil (ground arith)
lookup-merge k keep ((j, v) ∷ other) =
    lookup-merge k (merge_one j v keep (lookup j keep)) other
    ∙ rw (lookup-merge_one k j v keep) (
        first_of_assoc (lookup k keep) (if j == k then some v else none) (lookup k other)
        ∙ ground (arith, lookup-cons k j v other))

merge_one-NodupKeys :
    (k v : Text) (keep : Dict Text Text) (old : Option Text)
    → NodupKeys keep
    → NodupKeys (merge_one k v keep old)
merge_one-NodupKeys k v keep none n = insert-NodupKeys k v keep n
merge_one-NodupKeys k v keep (some w) n = n

pub merge-NodupKeys : (keep other : Dict Text Text) → NodupKeys keep → NodupKeys (merge keep other)
unfolding merge
merge-NodupKeys keep [] n = n
merge-NodupKeys keep ((j, v) ∷ other) n =
    merge-NodupKeys (merge_one j v keep (lookup j keep)) other
      (merge_one-NodupKeys j v keep (lookup j keep) n)

-- Every key of the second map is in the first.
abbrev Present : Dict Text Text → Dict Text Text → Type 0
Present keep [] = Unit
Present keep ((k, _) ∷ other) = (lookup k keep ≢ none) × Present keep other

merge-keeps :
    (k : Text) (keep other : Dict Text Text)
    → lookup k keep ≢ none
    → lookup k (merge keep other) ≢ none
merge-keeps k keep other h e = ground (arith, lookup-merge k keep other)

merge_one-here :
    (k v : Text) (keep : Dict Text Text) → lookup k (merge_one k v keep (lookup k keep)) ≢ none
merge_one-here k v keep e = ground (arith, lookup-merge_one k k v keep)

merge-Present : (keep other : Dict Text Text) → Present (merge keep other) other
unfolding merge
merge-Present keep [] = tt
merge-Present keep ((k, v) ∷ other) =
    let next = merge_one k v keep (lookup k keep) in
    (merge-keeps k next other (merge_one-here k v keep), merge-Present next other)

merge_absorb : (keep other : Dict Text Text) → Present keep other → merge keep other ≡ keep
unfolding merge
merge_absorb keep [] h = refl
merge_absorb keep ((k, v) ∷ other) (here, h) = elim (Option-cases (lookup k keep)) [
  | inl e ↦ absurd (here e)
  | inr (w, e) ↦ rw e (merge_absorb keep other h)
]

-- Merging the same map again changes nothing.
pub merge-merge : (keep other : Dict Text Text) → merge (merge keep other) other ≡ merge keep other
merge-merge keep other = merge_absorb (merge keep other) other (merge-Present keep other)

-- A patch that sets no variable twice overrides the variables that it sets, keeps every other variable, and changes nothing but
-- the environment.
pub apply_patch_lem :
    (f f2 : Formula) (k : Text)
    → NodupKeys f2.action.env
    → (lookup k (apply_patch f f2).action.env
        ≡ first_of (lookup k f2.action.env) (lookup k f.action.env))
      × ((apply_patch f f2).inputs ≡ f.inputs)
      × ((apply_patch f f2).outputs ≡ f.outputs)
      × (record (apply_patch f f2).action { env = f.action.env } ≡ f.action)
unfolding apply_patch
apply_patch_lem f f2 k n = (
  lookup-merge k (clone_env f2.action.env) f.action.env ∙ rw (clone_env-eq f2.action.env n) refl,
  refl,
  refl,
  refl,
)

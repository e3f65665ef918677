-- ===== src/Formula/Clone.antt =====
-- `Clone` and its parts (api/def/formula_ops.go, formulaAction_ops.go, formulaMounts_ops.go). The
-- values here are immutable, so the copy of a list of strings is that list, and the copies of an input and
-- an output are they; the maps are built anew.
use repeatr.Base.{◌≡◌, refl, sym, ◌∙◌, none, [], ◌∷◌, ◌++◌, Text, text_eq, arith}
use repeatr.Base.Dict.{Dict, lookup, insert, NodupKeys, lookup-nil, lookup-cons, lookup-insert}
use repeatr.Formula.{Formula, Action}
use mathlib.Core.List.{append-nil, append_assoc}

-- The loop of each `Clone` of a map: `r[k] = v.Clone()`.
unfoldable pub clone_loop {ℓ} : {V : Type ℓ} → (V → V) → Dict Text V → Dict Text V → Dict Text V
clone_loop f [] r = r
clone_loop f ((k, v) ∷ d) r = clone_loop f d (insert k (f v) r)

-- `Env.Clone`
unfoldable pub clone_env : Dict Text Text → Dict Text Text
unfolding clone_loop
clone_env e = clone_loop (λ v. v) e []

-- `Action.Clone`
unfoldable pub clone_action : Action → Action
unfolding clone_env
clone_action a = record a { env = clone_env a.env }

-- `Formula.Clone`
unfoldable pub clone : Formula → Formula
unfolding clone_action clone_loop
clone f = record {
  inputs = clone_loop (λ i. i) f.inputs [];
  action = clone_action f.action;
  outputs = clone_loop (λ o. o) f.outputs [];
}

module _ {ℓ} {V : Type ℓ} where
  -- A key of the second map is not one of the first.
  abbrev Apart : Dict Text V → Dict Text V → Type ℓ
  Apart r [] = Unit
  Apart r ((k, _) ∷ d) = (lookup k r ≡ none) × Apart r d

  insert-absent :
      (k : Text) (v : V) (r : Dict Text V) → lookup k r ≡ none → insert k v r ≡ r ++ ((k, v) ∷ [])
  unfolding insert lookup
  insert-absent k v [] h = refl
  insert-absent k v ((j, w) ∷ r) h = ground (arith, insert-absent k v r)

  insert-Apart :
      (k : Text) (v : V) (r d : Dict Text V)
      → lookup k d ≡ none
      → Apart r d
      → Apart (insert k v r) d
  insert-Apart k v r [] h a = tt
  insert-Apart k v r ((j, w) ∷ d) h a =
      ground (arith, lookup-cons k j w d, lookup-insert j k v r, insert-Apart k v r d)

  clone_loop-append :
      (d r : Dict Text V) → NodupKeys d → Apart r d → clone_loop (λ v. v) d r ≡ r ++ d
  unfolding clone_loop
  clone_loop-append [] r n a = sym (append-nil r)
  clone_loop-append ((k, v) ∷ d) r (new, n) (absent, a) =
      clone_loop-append d (insert k v r) n (insert-Apart k v r d new a)
      ∙ rw (insert-absent k v r absent) (append_assoc r ((k, v) ∷ []) d)

  nil-Apart : (d : Dict Text V) → Apart [] d
  nil-Apart [] = tt
  nil-Apart ((k, v) ∷ d) = (lookup-nil {V = V} k, nil-Apart d)

  pub clone_loop-eq : (d : Dict Text V) → NodupKeys d → clone_loop (λ v. v) d [] ≡ d
  clone_loop-eq d n = clone_loop-append d [] n (nil-Apart d)

-- The three maps of a formula have no key twice, as in every Go map.
pub record IsValid (f : Formula) : Type 0 where
  pub inputs : NodupKeys f.inputs
  pub env : NodupKeys f.action.env
  pub outputs : NodupKeys f.outputs

pub clone_env-eq : (e : Dict Text Text) → NodupKeys e → clone_env e ≡ e
unfolding clone_env
clone_env-eq e n = clone_loop-eq e n

-- The clone of a formula is equal to it.
pub clone-eq : (f : Formula) → IsValid f → clone f ≡ f
unfolding clone clone_action
clone-eq f v =
    rw (clone_loop-eq f.inputs v.inputs)
      (rw (clone_env-eq f.action.env v.env) (rw (clone_loop-eq f.outputs v.outputs) refl))

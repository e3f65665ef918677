-- ===== src/Cradle/Laws.antt =====
-- What the defaults set, that setting them twice is setting them once, and for which policies there
-- are any.
use mathlib.Core.Option
use repeatr.Base.{
  ◌≡◌, ◌↔◌, refl, ◌∙◌, Option, none, some, [], ◌∷◌, Text, text_eq, arith, ◌==◌, if◌then◌else◌,
  Option-cases, inl, inr, contains, false,
}
use repeatr.Base.Dict.{Dict, lookup}
use repeatr.Formula.{Formula}
use repeatr.Formula.Clone.{clone-eq, IsValid}
use repeatr.Formula.Patch.{first_of, lookup-merge, merge-NodupKeys, merge-merge}
use repeatr.Cradle.{
  policy_routine, policy_uid_zero, policy_governor, policy_sysad, routine_caps, uid_zero_caps,
  governor_caps, sysad_caps, luser, root, caps_for_policy, userinfo_for_policy, default_env,
  default_cwd, or_default, with_defaults, apply_defaults,
}

or_default-twice : (x d : Text) → or_default (or_default x d) d ≡ or_default x d
or_default-twice x d = ground arith

module _ (f : Formula) (v : IsValid f) where
  abbrev policy : Text
  policy = or_default f.action.policy policy_routine

  apply_defaults-eq : apply_defaults f ≡ Option.map (with_defaults f policy) (default_env policy)
  unfolding apply_defaults
  apply_defaults-eq = rw (clone-eq f v) refl

  applied :
      (g : Formula)
      → apply_defaults f ≡ some g
      → (env : Dict Text Text) × (default_env policy ≡ some env) × (with_defaults f policy env ≡ g)
  applied g e = elim (Option-cases (default_env policy)) [
    | inl missing ↦ ground (arith, apply_defaults-eq)
    | inr (env, found) ↦ (env, found, ground (arith, apply_defaults-eq))
  ]

  with_defaults-IsValid : (p : Text) (env : Dict Text Text) → IsValid (with_defaults f p env)
  with_defaults-IsValid p env = record {
    inputs = v.inputs;
    env = merge-NodupKeys f.action.env env v.env;
    outputs = v.outputs;
  }

  -- Where there are defaults for the policy, and the formula's maps have no key twice, they fill in an empty policy and an empty working directory, and add to the environment
  -- the default variables that the formula does not set. The inputs and the outputs stay.
  pub apply_defaults_lem :
      (g : Formula) (k : Text)
      → apply_defaults f ≡ some g
      → (g.inputs ≡ f.inputs)
        × (g.outputs ≡ f.outputs)
        × (g.action.policy ≡ or_default f.action.policy policy_routine)
        × (g.action.cwd ≡ or_default f.action.cwd default_cwd)
        × ((env : Dict Text Text) × (default_env g.action.policy ≡ some env)
            × (lookup k g.action.env ≡ first_of (lookup k f.action.env) (lookup k env)))
  apply_defaults_lem g k e =
      let (env, found, built) = applied g e in
      rw (← built) (refl, refl, refl, refl, (env, found, lookup-merge k f.action.env env))

-- Applying the defaults to a formula that they were applied to changes nothing, if the maps of the
-- first formula have no key twice.
pub apply_defaults-idempotent :
    (f g : Formula) → IsValid f → apply_defaults f ≡ some g → apply_defaults g ≡ some g
apply_defaults-idempotent f g v e =
    let (env, found, built) = applied f v g e in
    rw (← built) (
      apply_defaults-eq (with_defaults f (policy f v) env)
        (with_defaults-IsValid f v (policy f v) env)
      ∙ rw (or_default-twice f.action.policy policy_routine) (
          rw found
            (rw (or_default-twice f.action.cwd default_cwd, merge-merge f.action.env env) refl)))

switch-none :
    {A : Type 0} (p w x y z : Text) (a b c d : A)
    → ((if p == w
          then some a
          else if p == x
          then some b
          else if p == y
          then some c
          else if p == z
          then some d
          else none)
        ≡ none)
      ↔ (contains (w ∷ x ∷ y ∷ z ∷ []) p ≡ false)
switch-none p w x y z a b c d = ground arith

map-none : {A B : Type 0} (f : A → B) (x : Option A) → (Option.map f x ≡ none) ↔ (x ≡ none)
map-none f none = ground arith
map-none f (some a) = ground arith

-- Exactly the four policies have capabilities, a user and default variables.
pub policy-known :
    (p : Text)
    → let known =
        contains (policy_routine ∷ policy_uid_zero ∷ policy_governor ∷ policy_sysad ∷ []) p in
      ((caps_for_policy p ≡ none) ↔ (known ≡ false))
      × ((userinfo_for_policy p ≡ none) ↔ (known ≡ false))
      × ((default_env p ≡ none) ↔ (known ≡ false))
unfolding caps_for_policy default_env userinfo_for_policy
policy-known p =
    let user =
      switch-none p policy_routine policy_uid_zero policy_governor policy_sysad luser root root
        root in
    let env = map-none _ (userinfo_for_policy p) in
    (
      switch-none p policy_routine policy_uid_zero policy_governor policy_sysad routine_caps
          uid_zero_caps governor_caps sysad_caps,
      user,
      (λ e. user.0 (env.0 e), λ e. env.1 (user.1 e)),
    )

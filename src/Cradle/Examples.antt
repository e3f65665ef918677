-- ===== src/Cradle/Examples.antt =====
-- The theorems on the cradle at a concrete formula.
use repeatr.Base.{◌≡◌, refl, none, some, [], ◌∷◌, Text, str, text_eq}
use repeatr.Base.Dict.{Dict, lookup, insert}
use repeatr.Formula.{Formula}
use repeatr.Formula.Clone.{IsValid, clone, clone_action, clone_env, clone_loop}
use repeatr.Formula.Patch.{first_of}
use repeatr.Cradle.{
  policy_routine, userinfo_for_policy, default_env, default_cwd, or_default, apply_defaults,
  with_defaults,
}
use repeatr.Cradle.Laws.{apply_defaults_lem}

abbrev formula : Formula
formula = record {
  inputs = [];
  action = record {
    entrypoint = str "make" ∷ [];
    cwd = [];
    env = (str "HOME", str "/here") ∷ [];
    hostname = [];
    policy = [];
    cradle = none;
    mounts = [];
  };
  outputs = [];
}

abbrev defaulted : Formula
defaulted = with_defaults formula policy_routine (
    (str "PATH", str "/usr/local/sbin:/usr/local/bin:/usr/sbin:/usr/bin:/sbin:/bin")
    ∷ (str "HOME", str "/home/luser")
    ∷ [])

formula-IsValid : IsValid formula
unfolding lookup
formula-IsValid = record { inputs = tt; env = (refl, tt); outputs = tt }

defaults_given : apply_defaults formula ≡ some defaulted
unfolding apply_defaults default_env userinfo_for_policy clone clone_action clone_env clone_loop
    insert text_eq
defaults_given = refl

apply_defaults_lem_example :
    (defaulted.inputs ≡ formula.inputs)
    × (defaulted.outputs ≡ formula.outputs)
    × (defaulted.action.policy ≡ or_default formula.action.policy policy_routine)
    × (defaulted.action.cwd ≡ or_default formula.action.cwd default_cwd)
    × ((env : Dict Text Text) × (default_env defaulted.action.policy ≡ some env)
        × (lookup (str "HOME") defaulted.action.env
            ≡ first_of (lookup (str "HOME") formula.action.env) (lookup (str "HOME") env)))
apply_defaults_lem_example =
    apply_defaults_lem formula formula-IsValid defaulted (str "HOME") defaults_given

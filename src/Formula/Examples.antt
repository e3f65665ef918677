-- ===== src/Formula/Examples.antt =====
-- The theorems on formulas at a concrete one.
use repeatr.Base.{
  ℕ, ◌%◌, ◌≡◌, refl, none, List, [], ◌∷◌, ◌++◌, Text, str, text_eq, false, AllBelow, arith,
}
use repeatr.Base.Dict.{Dict, lookup}
use repeatr.Formula.{Formula, Action, Input, Output}
use repeatr.Formula.Clone.{IsValid}
use repeatr.Formula.Hash.{Incidentals, dressed, hash, with_outputs, hash-dressed}

abbrev action : Dict Text Text → Action
action env = record {
  entrypoint = str "make" ∷ [];
  cwd = str "/task";
  env = env;
  hostname = [];
  policy = [];
  cradle = none;
  mounts = [];
}

abbrev input : Input
input = record {
  kind = str "tar";
  hash = str "h1";
  warehouses = str "file:///w" ∷ [];
  mount_path = str "/";
}

abbrev output : Text → Output
output hash = record {
  kind = str "tar";
  hash = hash;
  warehouses = [];
  mount_path = str "/out";
  filters = none;
  conjecture = false;
}

abbrev formula : Formula
formula = record {
  inputs = (str "gcc", input) ∷ [];
  action = action ((str "A", str "1") ∷ (str "B", str "2") ∷ []);
  outputs = (str "out", output (str "h2")) ∷ [];
}

abbrev patch : Formula
patch = record { inputs = []; action = action ((str "B", str "3") ∷ []); outputs = [] }

formula-IsValid : IsValid formula
unfolding lookup text_eq
formula-IsValid = record { inputs = (refl, tt); env = (refl, (refl, tt)); outputs = (refl, tt) }

patch-IsValid : IsValid patch
unfolding lookup
patch-IsValid = record { inputs = tt; env = (refl, tt); outputs = tt }

-- The inputs' hashes, and the environment.
abbrev encode : Formula → List ℕ
encode f = hashes f.inputs ++ values f.action.env
  where
    hashes : Dict Text Input → List ℕ
    hashes [] = []
    hashes ((_, i) ∷ d) = i.hash ++ hashes d

    values : Dict Text Text → List ℕ
    values [] = []
    values ((_, v) ∷ d) = v ++ values d

-- The first byte.
abbrev digest : List ℕ → List ℕ
digest [] = []
digest (b ∷ bs) = (b % 256) ∷ []

digest-AllBelow : (b : List ℕ) → AllBelow 256 (digest b)
digest-AllBelow [] = tt
digest-AllBelow (b ∷ bs) = (omega arith, tt)

abbrev elsewhere : Incidentals
elsewhere = record {
  input_warehouses = λ _. str "http://w" ∷ [];
  output_warehouses = λ _. [];
  output_hash = λ _. [];
}

hash-dressed_example : hash encode digest (dressed elsewhere formula) ≡ hash encode digest formula
hash-dressed_example = hash-dressed encode digest elsewhere formula formula-IsValid

abbrev staged : Dict Text Output → Formula
staged outputs = with_outputs formula outputs

one-IsValid : IsValid (staged ((str "out", output []) ∷ []))
unfolding lookup text_eq
one-IsValid = record { inputs = (refl, tt); env = (refl, (refl, tt)); outputs = (refl, tt) }

none-IsValid : IsValid (staged [])
unfolding lookup text_eq
none-IsValid = record { inputs = (refl, tt); env = (refl, (refl, tt)); outputs = tt }

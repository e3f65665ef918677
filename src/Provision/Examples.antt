-- ===== src/Provision/Examples.antt =====
-- The theorems on provisioning with two inputs, whose reports arrive in the other order.
use repeatr.Base.{
  false, true, some, nat_eq, ◌≡◌, refl, ◌⊎◌, inl, inr, List, [], ◌∷◌, Text, str, text_eq, arith,
  ◌==◌, if◌then◌else◌,
}
use repeatr.Base.Dict.{Dict, lookup, insert}
use repeatr.Formula.{Input, Output, Filters}
use repeatr.Filters.{zero_filters, init_defaults_output}
use repeatr.Rio.{Filter}
use repeatr.Provision.{report_input, gather, provision_inputs, preserve_outputs}
use repeatr.Provision.Outputs.{Saved, preserve_outputs-Saved}
use repeatr.Provision.Orders.{Orders, Answers, provision_inputs-ready}

abbrev input : Text → Input
input hash = record { kind = str "tar"; hash = hash; warehouses = []; mount_path = str "/" }

abbrev inputs : Dict Text Input
inputs = (str "a", input (str "h1")) ∷ (str "b", input (str "h2")) ∷ []

abbrev arrivals : Dict Text Input
arrivals = (str "b", input (str "h2")) ∷ (str "a", input (str "h1")) ∷ []

abbrev stored : Text → Text → List Text → Text ⊎ Text
stored kind hash warehouses = inr hash

abbrev missing : Text → Text → List Text → Text ⊎ Text
missing kind hash warehouses = if hash == str "h1" then inl (str "gone") else inr hash

swapped :
    (k x y : Text) (v w : Input)
    → (x == y) ≡ false
    → lookup k ((x, v) ∷ (y, w) ∷ []) ≡ lookup k ((y, w) ∷ (x, v) ∷ [])
unfolding lookup
swapped k x y v w other = ground arith

arrivals-Orders : Orders arrivals inputs
unfolding lookup text_eq
arrivals-Orders = record {
  once = (refl, (refl, tt));
  same = λ name. swapped name (str "b") (str "a") (input (str "h2")) (input (str "h1")) refl;
}

provision_inputs-ready_example :
    Answers
      (report_input stored)
      (lookup (str "a") inputs)
      (lookup (str "a") ((str "b", str "h2") ∷ (str "a", str "h1") ∷ []))
unfolding provision_inputs gather insert text_eq
provision_inputs-ready_example =
    provision_inputs-ready stored arrivals inputs ((str "b", str "h2") ∷ (str "a", str "h1") ∷ [])
      (str "a") arrivals-Orders refl

-- Filters of the zero value, and those of a formula with one output.
abbrev unset : Filters
unset = zero_filters

abbrev output : Output
output = record {
  kind = str "tar";
  hash = [];
  warehouses = [];
  mount_path = str "/out";
  filters = some unset;
  conjecture = true;
}

abbrev scanner : Text → Text → List Text → List Filter → Text ⊎ Text
scanner kind path warehouses options = inr path

abbrev outputs : Dict Text Output
outputs = (str "o", output) ∷ []

abbrev results : Dict Text Output
results =
    (str "o", record output { hash = str "/root/out"; filters = some (init_defaults_output unset) })
    ∷ []

outputs-Orders : Orders outputs outputs
unfolding lookup
outputs-Orders = record { once = (refl, tt); same = λ name. refl }

preserve_outputs-Saved_example :
    Saved scanner (str "/root") (lookup (str "o") outputs) (lookup (str "o") results)
unfolding preserve_outputs text_eq nat_eq insert
preserve_outputs-Saved_example =
    preserve_outputs-Saved scanner (str "/root") outputs outputs results (str "o") outputs-Orders
      refl

-- ===== src/Filters/Defaults.antt =====
-- The defaults of filters, for inputs and for outputs.
use repeatr.Base.{◌≡◌, refl, false, arith, if◌then◌else◌}
use repeatr.Formula.{Filters, FilterMode, filter_use, filter_keep}
use repeatr.Filters.{is_unset, init_defaults_input, init_defaults_output}

-- Every mode is set.
abbrev pub IsSettled : Filters → Type 0
IsSettled f =
    (is_unset f.uid_mode ≡ false) × (is_unset f.gid_mode ≡ false) × (is_unset f.mtime_mode ≡ false)

input-settled : (f : Filters) → IsSettled f → init_defaults_input f ≡ f
unfolding init_defaults_input
input-settled f (a, b, c) = rw (a, b, c) refl

output-settled : (f : Filters) → IsSettled f → init_defaults_output f ≡ f
unfolding init_defaults_output
output-settled f (a, b, c) = rw (a, b, c) refl

or_keep : (m : FilterMode) → is_unset (if is_unset m then filter_keep else m) ≡ false
or_keep m = ground arith

or_use : (m : FilterMode) → is_unset (if is_unset m then filter_use else m) ≡ false
or_use m = ground arith

input-IsSettled : (f : Filters) → IsSettled (init_defaults_input f)
unfolding init_defaults_input
input-IsSettled f = (or_keep f.uid_mode, or_keep f.gid_mode, or_keep f.mtime_mode)

output-IsSettled : (f : Filters) → IsSettled (init_defaults_output f)
unfolding init_defaults_output
output-IsSettled f = (or_use f.uid_mode, or_use f.gid_mode, or_use f.mtime_mode)

-- Whichever defaults are set first stay: setting the defaults of inputs or of outputs after either
-- of them changes nothing.
pub init_defaults_once :
    (f : Filters)
    → let i = init_defaults_input f in
      let o = init_defaults_output f in
      (init_defaults_input i ≡ i)
      × (init_defaults_output i ≡ i)
      × (init_defaults_input o ≡ o)
      × (init_defaults_output o ≡ o)
init_defaults_once f =
    let i = input-IsSettled f in
    let o = output-IsSettled f in
    (input-settled _ i, output-settled _ i, input-settled _ o, output-settled _ o)

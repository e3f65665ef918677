-- ===== src/Formula/Decode.antt =====
-- What `InputGroup.CodecDecodeSelf` and `OutputGroup.CodecDecodeSelf` of
-- api/def/formulaMounts_serial.go do after the codec: `none` is a nil pointer, and a panic.
use repeatr.Base.{Option, none, some, [], ◌∷◌, Text, text_eq, ◌==◌, if◌then◌else◌}
use repeatr.Base.Dict.{Dict}
use repeatr.Formula.{Input, Output, Filters}
use repeatr.Filters.{zero_filters}

abbrev pub add_entry {ℓ} :
    {V : Type ℓ} → Text → Option V → Option (Dict Text V) → Option (Dict Text V)
add_entry k none rest = none
add_entry k (some v) none = none
add_entry k (some v) (some rest) = some ((k, v) ∷ rest)

-- `if v.MountPath == "" { v.MountPath = k }`
abbrev pub mount_path_or : Text → Text → Text
mount_path_or k path = if path == [] then k else path

abbrev pub fix_input : Text → Option Input → Option Input
fix_input k none = none
fix_input k (some i) = some (record i { mount_path = mount_path_or k i.mount_path })

-- The loop of `InputGroup.CodecDecodeSelf`.
unfoldable pub fix_inputs : Dict Text (Option Input) → Option (Dict Text Input)
fix_inputs [] = some []
fix_inputs ((k, v) ∷ inputs) = add_entry k (fix_input k v) (fix_inputs inputs)

abbrev pub filters_or_zero : Option Filters → Filters
filters_or_zero none = zero_filters
filters_or_zero (some f) = f

abbrev pub fix_output : Text → Option Output → Option Output
fix_output k none = none
fix_output k (some o) = some (record o {
  mount_path = mount_path_or k o.mount_path;
  filters = some (filters_or_zero o.filters);
})

-- The two loops of `OutputGroup.CodecDecodeSelf`.
unfoldable pub fix_outputs : Dict Text (Option Output) → Option (Dict Text Output)
fix_outputs [] = some []
fix_outputs ((k, v) ∷ outputs) = add_entry k (fix_output k v) (fix_outputs outputs)

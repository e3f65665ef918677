-- ===== src/Provision.antt =====
-- `ProvisionInputs`, `AssembleFilesystem` and `PreserveOutputs` of core/executor/util/provision.go. Each input is materialized by a goroutine of
-- its own, which reports over one channel: `arrivals` is the inputs in the order in which their
-- reports are received. `materialize` is the transmat, which gives an arena or raises an error; an
-- error that is raised again is `inl`. The journal is left out. The assembler is an argument.
pub mod Orders
pub mod Outputs
mod Examples
use mathlib.Core.Option
use repeatr.Base.{
  ◌⊎◌, inl, inr, Option, none, some, Bool, true, false, List, [], ◌∷◌, ◌++◌, map, Text, text_eq,
}
use repeatr.Base.Dict.{Dict, insert, lookup}
use repeatr.Formula.{Input, Output, Filters, Mount}
use repeatr.Filters.{init_defaults_output}
use repeatr.Rio.{Filter, convert_filter_config}
use repeatr.Base.Paths.{path_join}

-- The loops that gather the reports, of inputs and of outputs, with the results gathered so far: what was
-- asked for under a name is `In`, and its report is an error, which is raised again, or a result.
module _ {Error In Out : Type 0} (report : In → Error ⊎ Out) where
  unfoldable pub gather : Dict Text In → Dict Text Out → Error ⊎ Dict Text Out
  gather [] results = inr results
  gather ((name, i) ∷ arrivals) results = elim (report i) [
    | inl e ↦ inl e
    | inr out ↦ gather arrivals (insert name out results)
  ]

module _ {Error Arena : Type 0} (materialize : Text → Text → List Text → Error ⊎ Arena) where
  -- What the goroutine of one input reports.
  abbrev pub report_input : Input → Error ⊎ Arena
  report_input i = materialize i.kind i.hash i.warehouses

  -- `ProvisionInputs`
  unfoldable pub provision_inputs : Dict Text Input → Error ⊎ Dict Text Arena
  unfolding gather
  provision_inputs arrivals = gather report_input arrivals []

-- What the goroutine of one output has before it scans.
pub record Prepared : Type 0 where
  pub output : Output
  pub filters : Filters
  pub options : List Filter

abbrev converted : Output → Filters → Option (List Filter) → Option Prepared
converted out filters none = none
converted out filters (some options) =
    some (record { output = out; filters = filters; options = options })

-- The defaults and `ConvertFilterConfig`, whose panics are not caught: they end the process, which is `none`. So does a
-- pointer to filters that is nil.
abbrev pub prepared_with : Output → Option Filters → Option Prepared
prepared_with out none = none
prepared_with out (some f) =
    converted out (init_defaults_output f) (convert_filter_config (init_defaults_output f))

abbrev prepared_first :
    Text → Option Prepared → Option (Dict Text Prepared) → Option (Dict Text Prepared)
prepared_first name none rest = none
prepared_first name (some p) none = none
prepared_first name (some p) (some ps) = some ((name, p) ∷ ps)

-- The loop that starts the goroutines.
unfoldable pub prepare : Dict Text Output → Option (Dict Text Prepared)
unfolding init_defaults_output convert_filter_config
prepare [] = some []
prepare ((name, out) ∷ outputs) =
    prepared_first name (prepared_with out out.filters) (prepare outputs)

module _ {Error : Type 0} (scan : Text → Text → List Text → List Filter → Error ⊎ Text)
    (rootfs : Text) where
  -- The output with its hash, and with the defaults that were written to its filters.
  abbrev pub saved : Prepared → Error ⊎ Text → Error ⊎ Output
  saved p (inl e) = inl e
  saved p (inr commit) = inr (record p.output { hash = commit; filters = some p.filters })

  -- What the goroutine reports.
  abbrev pub report_output : Prepared → Error ⊎ Output
  report_output p = saved p (
      scan p.output.kind (path_join (rootfs ∷ p.output.mount_path ∷ [])) p.output.warehouses
        p.options)

  -- `PreserveOutputs`
  unfoldable pub preserve_outputs : Dict Text Output → Option (Error ⊎ Dict Text Output)
  unfolding gather prepare path_join
  preserve_outputs arrivals = Option.map (λ ps. gather report_output ps []) (prepare arrivals)

-- `type AssemblyPart struct` of rio/contract.go
pub record AssemblyPart : Type 0 where
  pub target_path : Text
  pub source_path : Text
  pub writable : Bool
  pub bare_mount : Bool

abbrev input_part : Text → Option Input → Option AssemblyPart
input_part path none = none
input_part path (some i) =
    some (record {
      target_path = i.mount_path;
      source_path = path;
      writable = true;
      bare_mount = false;
    })

abbrev add_part : Option AssemblyPart → Option (List AssemblyPart) → Option (List AssemblyPart)
add_part none parts = none
add_part (some part) none = none
add_part (some part) (some parts) = some (part ∷ parts)

-- The second loop of `AssembleFilesystem`.
abbrev pub mount_parts : List Mount → List AssemblyPart
mount_parts mounts =
    map
      (λ mount. record {
        target_path = mount.target_path;
        source_path = mount.source_path;
        writable = mount.writable;
        bare_mount = true;
      })
      mounts

module _ {Arena : Type 0} (path : Arena → Text) (inputs : Dict Text Input) where
  -- The first loop; an arena of no input is a panic, `none`.
  unfoldable pub input_parts : Dict Text Arena → Option (List AssemblyPart)
  input_parts [] = some []
  input_parts ((name, arena) ∷ arenas) =
      add_part (input_part (path arena) (lookup name inputs)) (input_parts arenas)

  -- `AssembleFilesystem`
  unfoldable pub assemble_filesystem :
      {Assembly : Type 0}
      → (Text → List AssemblyPart → Assembly)
      → Text
      → Dict Text Arena
      → List Mount
      → Option Assembly
  unfolding input_parts
  assemble_filesystem assembler root arenas mounts =
      Option.map (λ parts. assembler root (parts ++ mount_parts mounts)) (input_parts arenas)

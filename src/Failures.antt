-- ===== src/Failures.antt =====
-- api/def/errors.go, and the names of errors in run records: `failureTypeToString` and
-- `stringToBlankFailure` of api/def/runrecord_serial.go. `quote` is `fmt`'s `%q`.
pub mod Names
use repeatr.Base.{Option, none, some, List, [], ◌∷◌, ◌++◌, Text, str, text_eq, ◌==◌, if◌then◌else◌}
use repeatr.Formula.{Ware}

-- `type ErrConfigParsing struct`
pub record ErrConfigParsing : Type 0 where
  pub key : Text
  pub msg : Text
  pub must_be : Text
  pub was_actually : Text

-- `type ErrConfigValidation struct`
pub record ErrConfigValidation : Type 0 where
  pub key : Text
  pub msg : Text

-- `type ErrWarehouseUnavailable struct`
pub record ErrWarehouseUnavailable : Type 0 where
  pub msg : Text
  pub from : Text
  pub during : Text

-- `type ErrWarehouseProblem struct`
pub record ErrWarehouseProblem : Type 0 where
  pub msg : Text
  pub during : Text
  pub ware : Ware
  pub from : Text

-- `type ErrWareDNE struct`
pub record ErrWareDne : Type 0 where
  pub ware : Ware
  pub from : Text

-- `type ErrHashMismatch struct`
pub record ErrHashMismatch : Type 0 where
  pub expected : Ware
  pub actual : Ware
  pub from : Text

-- `type ErrWareCorrupt struct`
pub record ErrWareCorrupt : Type 0 where
  pub msg : Text
  pub ware : Ware
  pub from : Text

-- The pointers that an `error` may hold: the seven of the API, `*ErrUnmarshalling` by its message,
-- and any other error, a struct that is held as a value included, by its text.
pub data Failure : Type 0 where
  config_parsing : ErrConfigParsing → Failure
  config_validation : ErrConfigValidation → Failure
  warehouse_unavailable : ErrWarehouseUnavailable → Failure
  warehouse_problem : ErrWarehouseProblem → Failure
  ware_dne : ErrWareDne → Failure
  hash_mismatch : ErrHashMismatch → Failure
  ware_corrupt : ErrWareCorrupt → Failure
  unmarshalling : Text → Failure
  other : Text → Failure

-- `prefix` and the text, if there is one.
abbrev pub optional : Text → Text → Text
optional prefix [] = []
optional prefix (c ∷ cs) = prefix ++ (c ∷ cs)

-- `ErrWarehouseUnavailable.Error`
abbrev pub warehouse_unavailable_text : ErrWarehouseUnavailable → Text
warehouse_unavailable_text e =
    str "Warehouse Unavailable for "
    ++ (e.during ++ (str ": " ++ (e.msg ++ optional (str " from ") e.from)))

module _ (quote : Text → Text) where
  -- `ErrWarehouseProblem.Error`
  abbrev pub warehouse_problem_text : ErrWarehouseProblem → Text
  warehouse_problem_text e =
      let regarding = if e.ware.hash == [] then [] else str " of " ++ quote e.ware.hash in
      str "Warehouse errored during "
      ++ (e.during ++ (regarding ++ (str ": " ++ (e.msg ++ optional (str " from ") e.from))))

  -- `ErrWareDNE.Error`
  abbrev pub ware_dne_text : ErrWareDne → Text
  ware_dne_text e =
      str "Ware DNE: hash "
      ++ (quote e.ware.hash ++ (str " not found" ++ optional (str " from ") e.from))

  -- `ErrHashMismatch.Error`
  abbrev pub hash_mismatch_text : ErrHashMismatch → Text
  hash_mismatch_text e =
      str "Hash Mismatch: expected "
      ++ (quote e.expected.hash
          ++ (str ", got " ++ (quote e.actual.hash ++ (str " from " ++ e.from))))

  -- `ErrWareCorrupt.Error`
  abbrev pub ware_corrupt_text : ErrWareCorrupt → Text
  ware_corrupt_text e =
      str "Ware Corrupt: "
      ++ (e.msg ++ (str ", while working on " ++ (quote e.ware.hash ++ (str " from " ++ e.from))))

  -- `Error`, of whichever error.
  unfoldable pub error_text : Failure → Text
  error_text (config_parsing e) = e.msg
  error_text (config_validation e) = e.msg
  error_text (warehouse_unavailable e) = warehouse_unavailable_text e
  error_text (warehouse_problem e) = warehouse_problem_text e
  error_text (ware_dne e) = ware_dne_text e
  error_text (hash_mismatch e) = hash_mismatch_text e
  error_text (ware_corrupt e) = ware_corrupt_text e
  error_text (unmarshalling msg) = msg
  error_text (other text) = text

-- `failureTypeToString`; `none` where it panics.
unfoldable pub failure_type_to_string : Failure → Option Text
failure_type_to_string (config_parsing e) = some (str "ErrConfigParsing")
failure_type_to_string (config_validation e) = some (str "ErrConfigValidation")
failure_type_to_string (warehouse_unavailable e) = some (str "ErrWarehouseUnavailable")
failure_type_to_string (warehouse_problem e) = some (str "ErrWarehouseProblem")
failure_type_to_string (ware_dne e) = some (str "ErrWareDNE")
failure_type_to_string (hash_mismatch e) = some (str "ErrHashMismatch")
failure_type_to_string (ware_corrupt e) = some (str "ErrWareCorrupt")
failure_type_to_string (unmarshalling msg) = none
failure_type_to_string (other text) = none

abbrev no_ware : Ware
no_ware = record { kind = []; hash = [] }

-- The zero value of the same type.
abbrev pub blank : Failure → Failure
blank (config_parsing e) =
    config_parsing (record { key = []; msg = []; must_be = []; was_actually = [] })
blank (config_validation e) = config_validation (record { key = []; msg = [] })
blank (warehouse_unavailable e) =
    warehouse_unavailable (record { msg = []; from = []; during = [] })
blank (warehouse_problem e) =
    warehouse_problem (record { msg = []; during = []; ware = no_ware; from = [] })
blank (ware_dne e) = ware_dne (record { ware = no_ware; from = [] })
blank (hash_mismatch e) = hash_mismatch (record { expected = no_ware; actual = no_ware; from = [] })
blank (ware_corrupt e) = ware_corrupt (record { msg = []; ware = no_ware; from = [] })
blank (unmarshalling msg) = unmarshalling []
blank (other text) = other []

-- `stringToBlankFailure`; `none` where it panics.
unfoldable pub string_to_blank_failure : Text → Option Failure
string_to_blank_failure typ =
    if typ == str "ErrConfigParsing"
    then some (config_parsing (record { key = []; msg = []; must_be = []; was_actually = [] }))
    else if typ == str "ErrConfigValidation"
    then some (config_validation (record { key = []; msg = [] }))
    else if typ == str "ErrWarehouseUnavailable"
    then some (warehouse_unavailable (record { msg = []; from = []; during = [] }))
    else if typ == str "ErrWarehouseProblem"
    then some (warehouse_problem (record { msg = []; during = []; ware = no_ware; from = [] }))
    else if typ == str "ErrWareDNE"
    then some (ware_dne (record { ware = no_ware; from = [] }))
    else if typ == str "ErrHashMismatch"
    then some (hash_mismatch (record { expected = no_ware; actual = no_ware; from = [] }))
    else if typ == str "ErrWareCorrupt"
    then some (ware_corrupt (record { msg = []; ware = no_ware; from = [] }))
    else none

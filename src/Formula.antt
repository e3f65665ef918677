-- ===== src/Formula.antt =====
-- api/def: the formula, its inputs, outputs and action.
pub mod Clone
pub mod Patch
pub mod Hash
pub mod Decode
mod Examples
use repeatr.Base.{ℕ, ℤ, Text, Bool, Option, List}
use repeatr.Base.Dict.{Dict}

-- `type Input struct`; `Type` is `kind`.
pub record Input : Type 0 where
  pub kind : Text
  pub hash : Text
  pub warehouses : List Text
  pub mount_path : Text

-- `type Ware struct`, and `catalog.SKU`.
pub record Ware : Type 0 where
  pub kind : Text
  pub hash : Text

-- `type Mount struct`
pub record Mount : Type 0 where
  pub target_path : Text
  pub source_path : Text
  pub writable : Bool

-- A `time.Time` in UTC: seconds since the epoch, and nanoseconds within the second.
pub record Time : Type 0 where
  pub seconds : ℤ
  pub nanos : ℕ

-- `type FilterMode int`
pub data FilterMode : Type 0 where
  filter_uninitialized filter_use filter_keep filter_host : FilterMode

-- `type Filters struct`
pub record Filters : Type 0 where
  pub uid_mode : FilterMode
  pub uid : ℤ
  pub gid_mode : FilterMode
  pub gid : ℤ
  pub mtime_mode : FilterMode
  pub mtime : Time

-- `type Output struct`
pub record Output : Type 0 where
  pub kind : Text
  pub hash : Text
  pub warehouses : List Text
  pub mount_path : Text
  pub filters : Option Filters
  pub conjecture : Bool

-- `type Action struct`; `Escapes` has the one field `Mounts`.
pub record Action : Type 0 where
  pub entrypoint : List Text
  pub cwd : Text
  pub env : Dict Text Text
  pub hostname : Text
  pub policy : Text
  pub cradle : Option Bool
  pub mounts : List Mount

-- `type Formula struct`
pub record Formula : Type 0 where
  pub inputs : Dict Text Input
  pub action : Action
  pub outputs : Dict Text Output

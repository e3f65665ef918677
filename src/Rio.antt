-- ===== src/Rio.antt =====
-- rio/filter, and `UseFilter`, `ConvertFilterConfig` and `EvaluateConfig` of rio/contract.go: from
-- the filters of a formula to what is done to the metadata of a file. A panic is `none`.
pub mod Pipeline
mod Examples
use repeatr.Base.{ℤ, Option, none, some, List, [], ◌∷◌, ◌++◌}
use repeatr.Formula.{
  Filters, FilterMode, filter_uninitialized, filter_use, filter_keep, filter_host, Time,
}

-- `fs.Metadata`, a `tar.Header`: the fields that filters change, and the others.
pub record Metadata (Rest : Type 0) : Type 0 where
  pub uid : ℤ
  pub gid : ℤ
  pub mod_time : Time
  pub rest : Rest

-- The filters that there are.
pub data Filter : Type 0 where
  mtime_filter : Time → Filter
  uid_filter gid_filter : ℤ → Filter

-- `type FilterSet struct`; nil is `none`.
pub record FilterSet : Type 0 where
  pub mtime : Option Time
  pub uid : Option ℤ
  pub gid : Option ℤ

-- `FilterSet{}`
abbrev pub no_filters : FilterSet
no_filters = record { mtime = none; uid = none; gid = none }

-- `FilterSet.Put`
unfoldable pub put : Filter → FilterSet → FilterSet
put (mtime_filter t) fs = record fs { mtime = some t }
put (uid_filter n) fs = record fs { uid = some n }
put (gid_filter n) fs = record fs { gid = some n }

module _ {Rest : Type 0} where
  -- `MtimeFilter.Filter`, if there is one.
  abbrev pub filter_mtime : Option Time → Metadata Rest → Metadata Rest
  filter_mtime none hdr = hdr
  filter_mtime (some t) hdr = record hdr { mod_time = t }

  -- `UidFilter.Filter`
  abbrev pub filter_uid : Option ℤ → Metadata Rest → Metadata Rest
  filter_uid none hdr = hdr
  filter_uid (some n) hdr = record hdr { uid = n }

  -- `GidFilter.Filter`
  abbrev pub filter_gid : Option ℤ → Metadata Rest → Metadata Rest
  filter_gid none hdr = hdr
  filter_gid (some n) hdr = record hdr { gid = n }

  -- `FilterSet.Apply`
  unfoldable pub apply : FilterSet → Metadata Rest → Metadata Rest
  apply fs hdr = filter_gid fs.gid (filter_uid fs.uid (filter_mtime fs.mtime hdr))

-- One `switch` of `ConvertFilterConfig`.
abbrev pub option_of : FilterMode → Filter → Option (List Filter)
option_of filter_uninitialized f = none
option_of filter_use f = some (f ∷ [])
option_of filter_keep f = some []
option_of filter_host f = none

abbrev pub joined : Option (List Filter) → Option (List Filter) → Option (List Filter)
joined none ys = none
joined (some xs) none = none
joined (some xs) (some ys) = some (xs ++ ys)

-- `ConvertFilterConfig`; a `MaterializerConfigurer` is the filter that it puts.
unfoldable pub convert_filter_config : Filters → Option (List Filter)
convert_filter_config conf = joined (option_of conf.uid_mode (uid_filter conf.uid)) (
    joined (option_of conf.gid_mode (gid_filter conf.gid))
      (option_of conf.mtime_mode (mtime_filter conf.mtime)))

-- `EvaluateConfig`, for the filters, from the options that were evaluated before.
unfoldable pub evaluate_config : List Filter → FilterSet → FilterSet
unfolding put
evaluate_config [] opts = opts
evaluate_config (each ∷ options) opts = evaluate_config options (put each opts)

-- ===== src/Rio/Examples.antt =====
-- The theorem on the filters of rio at a concrete configuration.
use repeatr.Base.{ℕ, pos, ◌≡◌, refl, [], ◌∷◌}
use repeatr.Formula.{Filters, filter_use, filter_keep}
use repeatr.Filters.{unix}
use repeatr.Rio.{
  Metadata, uid_filter, mtime_filter, no_filters, apply, convert_filter_config, evaluate_config,
}
use repeatr.Rio.Pipeline.{flattened, apply-convert_filter_config}

abbrev filters : Filters
filters = record {
  uid_mode = filter_use;
  uid = pos 1000;
  gid_mode = filter_keep;
  gid = pos 0;
  mtime_mode = filter_use;
  mtime = unix (pos 1262304000);
}

abbrev header : Metadata ℕ
header = record { uid = pos 7; gid = pos 8; mod_time = unix (pos 9); rest = 420 }

apply-convert_filter_config_example :
    apply
      (evaluate_config
        (uid_filter (pos 1000) ∷ mtime_filter (unix (pos 1262304000)) ∷ [])
        no_filters)
      header
    ≡ flattened filters header
unfolding convert_filter_config
apply-convert_filter_config_example =
    apply-convert_filter_config filters
      (uid_filter (pos 1000) ∷ mtime_filter (unix (pos 1262304000)) ∷ []) header refl

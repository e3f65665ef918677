-- ===== src/Rio/Pipeline.antt =====
-- What the filters of a formula do to the metadata of a file, from end to end.
use repeatr.Base.{ℤ, ◌≡◌, refl, ◌∙◌, Option, none, some, List, [], ◌∷◌, ◌++◌, arith}
use repeatr.Formula.{
  Filters, FilterMode, filter_uninitialized, filter_use, filter_keep, filter_host, Time,
}
use repeatr.Filters.RoundTrip.{used}
use repeatr.Rio.{
  Metadata, Filter, mtime_filter, uid_filter, gid_filter, FilterSet, no_filters, put, filter_uid,
  filter_gid, filter_mtime, apply, option_of, joined, convert_filter_config, evaluate_config,
}

-- The metadata with the values that the modes use in place of the file's.
abbrev pub flattened : {Rest : Type 0} → Filters → Metadata Rest → Metadata Rest
flattened conf hdr = record hdr {
  uid = used conf.uid_mode conf.uid hdr.uid;
  gid = used conf.gid_mode conf.gid hdr.gid;
  mod_time = used conf.mtime_mode conf.mtime hdr.mod_time;
}

abbrev chosen : {A : Type 0} → FilterMode → A → Option A
chosen filter_uninitialized a = none
chosen filter_use a = some a
chosen filter_keep a = none
chosen filter_host a = none

evaluate-append :
    (xs ys : List Filter) (fs : FilterSet)
    → evaluate_config (xs ++ ys) fs ≡ evaluate_config ys (evaluate_config xs fs)
unfolding evaluate_config
evaluate-append [] ys fs = refl
evaluate-append (x ∷ xs) ys fs = evaluate-append xs ys (put x fs)

-- A mode that can be converted puts its filter, or none, in the field that `set` sets.
evaluate_option :
    {A : Type 0} (mode : FilterMode) (a : A) (f : Filter) (set : Option A → FilterSet)
    (xs : List Filter)
    → put f (set none) ≡ set (some a)
    → option_of mode f ≡ some xs
    → evaluate_config xs (set none) ≡ set (chosen mode a)
unfolding evaluate_config
evaluate_option filter_uninitialized a f set xs h e = ground arith
evaluate_option filter_use a f set xs h e = let q : f ∷ [] ≡ xs = ground arith in rw (← q) h
evaluate_option filter_keep a f set xs h e = let q : [] ≡ xs = ground arith in rw (← q) refl
evaluate_option filter_host a f set xs h e = ground arith

parts :
    (x y z : Option (List Filter)) (all : List Filter)
    → joined x (joined y z) ≡ some all
    → (xs ys zs : List Filter) × (x ≡ some xs)
      × (y ≡ some ys)
      × (z ≡ some zs)
      × (xs ++ (ys ++ zs) ≡ all)
parts none y z all e = ground arith
parts (some xs) none z all e = ground arith
parts (some xs) (some ys) none all e = ground arith
parts (some xs) (some ys) (some zs) all e = (xs, ys, zs, refl, refl, refl, ground arith)

abbrev filter_set : Option Time → Option ℤ → Option ℤ → FilterSet
filter_set t u g = record { mtime = t; uid = u; gid = g }

evaluated :
    (conf : Filters) (options : List Filter)
    → convert_filter_config conf ≡ some options
    → evaluate_config options no_filters
      ≡ filter_set
          (chosen conf.mtime_mode conf.mtime)
          (chosen conf.uid_mode conf.uid)
          (chosen conf.gid_mode conf.gid)
unfolding convert_filter_config put
evaluated conf options e =
    let (xs, ys, zs, us, gs, ts, all) = parts _ _ _ options e in
    rw (← all) (
      evaluate-append xs (ys ++ zs) no_filters
      ∙ rw
          (evaluate_option conf.uid_mode conf.uid (uid_filter conf.uid)
            (λ u. filter_set none u none) xs refl us)
          (evaluate-append ys zs _
            ∙ rw
                (evaluate_option conf.gid_mode conf.gid (gid_filter conf.gid)
                  (λ g. filter_set none (chosen conf.uid_mode conf.uid) g) ys refl gs)
                (evaluate_option conf.mtime_mode conf.mtime (mtime_filter conf.mtime)
                  (λ t.
                    filter_set t (chosen conf.uid_mode conf.uid) (chosen conf.gid_mode conf.gid))
                  zs refl ts)))

module _ {Rest : Type 0} where
  filter_uid-chosen :
      (m : FilterMode) (n : ℤ) (hdr : Metadata Rest)
      → filter_uid (chosen m n) hdr ≡ record hdr { uid = used m n hdr.uid }
  filter_uid-chosen filter_uninitialized n hdr = refl
  filter_uid-chosen filter_use n hdr = refl
  filter_uid-chosen filter_keep n hdr = refl
  filter_uid-chosen filter_host n hdr = refl

  filter_gid-chosen :
      (m : FilterMode) (n : ℤ) (hdr : Metadata Rest)
      → filter_gid (chosen m n) hdr ≡ record hdr { gid = used m n hdr.gid }
  filter_gid-chosen filter_uninitialized n hdr = refl
  filter_gid-chosen filter_use n hdr = refl
  filter_gid-chosen filter_keep n hdr = refl
  filter_gid-chosen filter_host n hdr = refl

  filter_mtime-chosen :
      (m : FilterMode) (t : Time) (hdr : Metadata Rest)
      → filter_mtime (chosen m t) hdr ≡ record hdr { mod_time = used m t hdr.mod_time }
  filter_mtime-chosen filter_uninitialized t hdr = refl
  filter_mtime-chosen filter_use t hdr = refl
  filter_mtime-chosen filter_keep t hdr = refl
  filter_mtime-chosen filter_host t hdr = refl

-- If the configuration can be converted, then the filter set that its options evaluate to gives a
-- file the configured owner, group and time where the modes say to use them, and leaves the file's
-- own ones, and everything else, as they are.
pub apply-convert_filter_config :
    {Rest : Type 0} (conf : Filters) (options : List Filter) (hdr : Metadata Rest)
    → convert_filter_config conf ≡ some options
    → apply (evaluate_config options no_filters) hdr ≡ flattened conf hdr
unfolding apply
apply-convert_filter_config conf options hdr e = rw (evaluated conf options e) (
    rw (filter_mtime-chosen conf.mtime_mode conf.mtime hdr)
      (rw (filter_uid-chosen conf.uid_mode conf.uid) (filter_gid-chosen conf.gid_mode conf.gid _)))

-- ===== src/Transmat/Examples.antt =====
-- Tests of rio/transmat, and the theorem on the cache at a file system that is the list of its paths.
use repeatr.Base.{
  Option, ◌≡◌, refl, Bool, ◌⊎◌, ◌==◌, Text, str, text_eq, nat_eq, none, some, List, [], ◌∷◌, inl,
  inr, contains, if◌then◌else◌,
}
use repeatr.Base.Dict.{Dict, lookup}
use repeatr.Base.Paths.{has_prefix}
use repeatr.Transmat.{
  FsError, not_empty, no_transmat, Transmat, not_exist, FileSystem, dispatch_materialize,
  caching_materialize, detect_compression, gzip,
}
use repeatr.Transmat.Tar.{Raised, mismatch, unavailable, tar_kind, tar_materialize}
use repeatr.Transmat.Fetch.{IsFetched, AllSkipped, tar_materialize-IsFetched, tar_materialize-first}
use repeatr.Transmat.Scan.{is_there, is_absent, IsSaved, tar_scan, tar_scan-IsSaved}

-- A path and what is below it is taken away.
unfoldable without : Text → List Text → List Text
without p [] = []
without p (q ∷ w) = let rest = without p w in if has_prefix q p then rest else q ∷ rest

abbrev renamed_to : Text → Text → List Text → Option FsError × List Text
renamed_to from to w =
    if contains w to
    then (some not_empty, w)
    else if contains w from
    then (none, to ∷ without from w)
    else (some not_exist, w)

abbrev paths : FileSystem (List Text)
paths = record {
  stat_error = λ p w. if contains w p then none else some not_exist;
  rename = renamed_to;
  remove_all = λ p w. (none, without p w);
}

abbrev Options : Type 0
Options = Bool

-- A transmat that puts everything at one place.
abbrev fetcher : Transmat Options Text (List Text)
fetcher = record {
  materialize = λ kind hash uris options w. (inr (str "/tmp/arena"), str "/tmp/arena" ∷ w);
  scan = λ kind path uris options w. (inl (str "no"), w);
}

abbrev transmats : Dict Text (Transmat Options Text (List Text))
transmats = (str "tar", fetcher) ∷ []

-- A hash with `..` in it names a place outside of the cache, and what is there is given out.
outside_runs :
    caching_materialize paths transmats
      (str "/work")
      (str "tar")
      (str "../../etc")
      []
      []
      (str "/etc" ∷ [])
    ≡ (inr (str "/etc"), str "/etc" ∷ [])
unfolding caching_materialize text_eq nat_eq
outside_runs = refl

no_transmat_runs :
    dispatch_materialize transmats (str "git") (str "h") [] [] []
    ≡ (inl (no_transmat (str "git")), [])
unfolding dispatch_materialize lookup text_eq nat_eq
no_transmat_runs = refl

detect_compression_runs : detect_compression (31 ∷ 139 ∷ 8 ∷ 0 ∷ []) ≡ gzip
unfolding detect_compression nat_eq
detect_compression_runs = refl

-- Of two warehouses the first cannot be reached; the stream of the second is its address.
abbrev opened : Text → Text → Raised ⊎ Text
opened uri hash = if uri == str "http://a" then inl (unavailable (str "down")) else inr uri

abbrev unpacked : Text → Text → Text → Raised ⊎ (Text × Text)
unpacked uri hash stream = inr (str "/tmp/arena", str "h1")

abbrev uris : List Text
uris = str "http://a" ∷ str "http://b" ∷ []

tar_materialize_runs :
    (tar_materialize opened unpacked (str "tar") (str "h1") uris ≡ inr (str "/tmp/arena"))
    × (tar_materialize opened unpacked (str "tar") (str "h2") uris
        ≡ inl (mismatch (str "h2") (str "h1")))
    × (tar_materialize opened unpacked (str "tar") (str "h1") (str "http://a" ∷ [])
        ≡ inl (unavailable (str "No warehouses responded!")))
unfolding tar_materialize text_eq
tar_materialize_runs = (refl, refl, refl)

tar_materialize-IsFetched_example :
    (tar_kind ≡ str "tar") × IsFetched opened unpacked (str "h1") uris (str "/tmp/arena")
unfolding tar_materialize text_eq
tar_materialize-IsFetched_example =
    tar_materialize-IsFetched opened unpacked (str "h1") (str "tar") uris (str "/tmp/arena") refl

first_skipped : AllSkipped opened unpacked (str "h2") (str "http://a" ∷ [])
unfolding text_eq
first_skipped = ((unavailable (str "down"), refl, inl refl), tt)

tar_materialize-first_example : tar_materialize opened unpacked tar_kind (str "h2") uris ≡ (
    if str "h1" == str "h2" then inr (str "/tmp/arena") else inl (mismatch (str "h2") (str "h1")))
unfolding text_eq
tar_materialize-first_example =
    tar_materialize-first opened unpacked (str "h2") (str "http://a" ∷ []) [] (str "http://b")
      (str "http://b") (str "/tmp/arena") (str "h1") first_skipped refl refl

-- The first warehouse does not answer.
abbrev answers : Text → Raised ⊎ Bool
answers uri = inr (uri == str "http://b")

tar_scan-IsSaved_example :
    (tar_kind ≡ str "tar")
    × (((is_there ≡ is_absent) × (str "h1" ≡ []) × ((str "http://b" ∷ []) ≡ []))
        ⊎ ((is_there ≡ is_there)
            × IsSaved answers
                (λ wh. none)
                (λ wh id. none)
                (inr (str "h1"))
                uris
                (str "h1")
                (str "http://b" ∷ [])))
unfolding tar_scan text_eq
tar_scan-IsSaved_example =
    tar_scan-IsSaved answers (λ wh. none) (λ wh id. none) (inr (str "h1")) (str "tar") uris is_there
      (str "h1") (str "http://b" ∷ []) refl

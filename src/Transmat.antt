-- ===== src/Transmat.antt =====
-- rio/transmat: the transmat that dispatches by kind (mux/dispatchingTransmat.go), the one that keeps a cache of
-- directories (impl/cachedir/dircacher.go), `MustBeType` of mixins, and the detection of compression of
-- impl/tar/compression.go. The transmats behind them and the file system are arguments that change a state;
-- a panic is `inl`. Logs are left out, and an arena is its path.
pub mod Cache
pub mod Tar
pub mod Fetch
pub mod Scan
mod Examples
use repeatr.Base.{
  ℕ, Bool, true, false, Text, str, text_eq, nat_eq, Option, none, some, List, [], ◌∷◌, ◌++◌, ◌⊎◌,
  inl, inr, ◌==◌, if◌then◌else◌,
}
use repeatr.Base.Dict.{Dict, lookup}
use repeatr.Base.Paths.{path_join, has_prefix}

-- The panics: `def.ErrConfigValidation` for a kind, `rio.ErrInternal`, and those of another transmat.
pub data Failed (E : Type 0) : Type 0 where
  no_transmat : Text → Failed E
  internal : Failed E
  raised : E → Failed E

-- `rio.Transmat`, with options `O`, panics `E` and a state `W`.
pub record Transmat (O E W : Type 0) : Type 0 where
  pub materialize : Text → Text → List Text → List O → W → (E ⊎ Text) × W
  pub scan : Text → Text → List Text → List O → W → (E ⊎ Text) × W

module _ {E : Type 0} where
  abbrev re_raised : E ⊎ Text → Failed E ⊎ Text
  re_raised (inl e) = inl (raised e)
  re_raised (inr a) = inr a

-- `MustBeType`
unfoldable pub must_be_type : {E : Type 0} → Text → Text → Failed E ⊎ Unit {0}
must_be_type must actual = if must == actual then inr tt else inl internal

module _ {O E W : Type 0} (dispatch : Dict Text (Transmat O E W)) where
  abbrev pub dispatched :
      Text
      → (Transmat O E W → W → (E ⊎ Text) × W)
      → Option (Transmat O E W)
      → W
      → (Failed E ⊎ Text) × W
  dispatched kind call none w = (inl (no_transmat kind), w)
  dispatched kind call (some transmat) w = let (r, later) = call transmat w in (re_raised r, later)

  -- `dispatch.Transmat.Materialize`
  unfoldable pub dispatch_materialize : Text → Text → List Text → List O → W → (Failed E ⊎ Text) × W
  dispatch_materialize kind hash uris options =
      dispatched kind (λ t. t.materialize kind hash uris options) (lookup kind dispatch)

  -- `dispatch.Transmat.Scan`
  unfoldable pub dispatch_scan : Text → Text → List Text → List O → W → (Failed E ⊎ Text) × W
  dispatch_scan kind path uris options =
      dispatched kind (λ t. t.scan kind path uris options) (lookup kind dispatch)

-- The errors of the file system that the cache tells apart.
pub data FsError : Type 0 where
  not_exist busy not_empty other_error : FsError

-- `os.Stat`, `os.Rename` and `os.RemoveAll`; `none` is no error.
pub record FileSystem (W : Type 0) : Type 0 where
  pub stat_error : Text → W → Option FsError
  pub rename : Text → Text → W → Option FsError × W
  pub remove_all : Text → W → Option FsError × W

module _ {O E W : Type 0} (fs : FileSystem W) (dispatch : Dict Text (Transmat O E W))
    (work_path : Text) where
  -- `permPath`
  abbrev pub perm_path : Text → Text
  perm_path hash = path_join (work_path ∷ str "committed" ∷ hash ∷ [])

  abbrev cleaned_up : Text → Option FsError × W → (Failed E ⊎ Text) × W
  cleaned_up perm (none, w) = (inr perm, w)
  cleaned_up perm (some e, w) = (inl internal, w)

  -- After `os.Rename`: where somebody was first, the arena is removed.
  abbrev pub renamed : Text → Text → Option FsError → W → (Failed E ⊎ Text) × W
  renamed arena perm none w = (inr perm, w)
  renamed arena perm (some busy) w = cleaned_up perm (fs.remove_all arena w)
  renamed arena perm (some not_empty) w = cleaned_up perm (fs.remove_all arena w)
  renamed arena perm (some not_exist) w = (inl internal, w)
  renamed arena perm (some other_error) w = (inl internal, w)

  -- The arena goes into the cache.
  abbrev pub keep : Text → Failed E ⊎ Text → W → (Failed E ⊎ Text) × W
  keep perm (inl e) w = (inl e, w)
  keep perm (inr arena) w = let (e, later) = fs.rename arena perm w in renamed arena perm e later

  -- After `os.Stat`: only what does not exist is fetched.
  abbrev pub looked_up :
      (W → (Failed E ⊎ Text) × W) → Text → Option FsError → W → (Failed E ⊎ Text) × W
  looked_up fetch perm (some not_exist) w = let (r, later) = fetch w in keep perm r later
  looked_up fetch perm (some busy) w = (inr perm, w)
  looked_up fetch perm (some not_empty) w = (inr perm, w)
  looked_up fetch perm (some other_error) w = (inr perm, w)
  looked_up fetch perm none w = (inr perm, w)

  -- `CachingTransmat.Materialize`
  unfoldable pub caching_materialize : Text → Text → List Text → List O → W → (Failed E ⊎ Text) × W
  unfolding dispatch_materialize path_join
  caching_materialize kind [] uris options w = dispatch_materialize dispatch kind [] uris options w
  caching_materialize kind (c ∷ hash) uris options w =
      looked_up (dispatch_materialize dispatch kind (c ∷ hash) uris options) (perm_path (c ∷ hash))
        (fs.stat_error (perm_path (c ∷ hash)) w) w

-- `type Compression int`
pub data Compression : Type 0 where
  uncompressed bzip2 gzip xz : Compression

-- `Compression.Extension`
unfoldable pub extension : Compression → Text
extension uncompressed = str "tar"
extension bzip2 = str "tar.bz2"
extension gzip = str "tar.gz"
extension xz = str "tar.xz"

-- `DetectCompression`, of a source of ten bytes; no two of the marks begin alike, so the order of the map does not matter.
unfoldable pub detect_compression : Text → Compression
unfolding has_prefix
detect_compression source =
    if has_prefix source (66 ∷ 90 ∷ 104 ∷ [])
    then bzip2
    else if has_prefix source (31 ∷ 139 ∷ 8 ∷ [])
    then gzip
    else if has_prefix source (253 ∷ 55 ∷ 122 ∷ 88 ∷ 90 ∷ 0 ∷ [])
    then xz
    else uncompressed

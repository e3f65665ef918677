-- ===== src/Transmat/Cache.antt =====
-- What the cache of directories promises.
use repeatr.Base.{◌≡◌, Bool, true, false, Text, Option, none, some, ◌⊎◌, inl, inr, ◌≢◌}
use repeatr.Base.Dict.{Dict}
use repeatr.Base.Paths.{has_prefix}
use repeatr.Transmat.{
  Failed, Transmat, FsError, not_exist, busy, not_empty, other_error, FileSystem,
}

abbrev is_absent : Option FsError → Bool
is_absent none = false
is_absent (some not_exist) = true
is_absent (some busy) = false
is_absent (some not_empty) = false
is_absent (some other_error) = false

-- What the file system does, as documented, of a place in the cache that is no mount point (only there a rename is refused as
-- busy): after a rename that ends well, or is refused since the place is a directory that is not
-- empty, the place is there; and what is removed is a path and what is below it.
pub record IsSound {W : Type 0} (fs : FileSystem W) (perm : Text) : Type 0 where
  pub moved :
      (from : Text) (w : W)
      → (fs.rename from perm w).0 ≡ none
      → fs.stat_error perm (fs.rename from perm w).1 ≡ none
  pub taken :
      (from : Text) (w : W)
      → (fs.rename from perm w).0 ≡ some not_empty
      → fs.stat_error perm (fs.rename from perm w).1 ≡ none
  pub not_mounted : (from : Text) (w : W) → (fs.rename from perm w).0 ≢ some busy
  pub removed :
      (from : Text) (w : W)
      → has_prefix perm from ≡ false
      → fs.stat_error perm w ≡ none
      → fs.stat_error perm (fs.remove_all from w).1 ≡ none

-- A path that a transmat gave is not above the place, nor the place itself.
abbrev pub IsAside : {E : Type 0} → Text → Failed E ⊎ Text → Type 0
IsAside perm (inl e) = Unit
IsAside perm (inr arena) = has_prefix perm arena ≡ false

module _ {O E W : Type 0} (fs : FileSystem W) (dispatch : Dict Text (Transmat O E W))
    (work_path : Text) where
  -- A result that is a path is the cache's own, and stat finds something there or fails otherwise.
  abbrev Kept : Text → (Failed E ⊎ Text) × W → Type 0
  Kept perm (inl e, w) = Unit {0}
  Kept perm (inr path, w) = (path ≡ perm) × (is_absent (fs.stat_error perm w) ≡ false)

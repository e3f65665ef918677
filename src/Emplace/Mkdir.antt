-- ===== src/Emplace/Mkdir.antt =====
-- `mkdirAll`, `MkdirAllWithAttribs`, `MkdirAll` and `WithMtimeRepair` of lib/fs/emplacements.go. They return their
-- errors. `mkdir_all` runs on fuel; `none` is that it was too little.
use repeatr.Base.{
  ℕ, zero, suc, pos, negsuc, true, false, Text, Option, none, some, List, [], ◌∷◌, ◌++◌, ◌==◌,
  nat_eq, text_eq, length, drop, if◌then◌else◌, ltb,
}
use repeatr.Base.Paths.{slash, dot, clean}
use repeatr.Formula.{Time}
use repeatr.Fs.{Header, file_mode, epochwhen}
use repeatr.Emplace.{
  Call, lstat, stat, mkdir, chmod, lchown, lutimes_nano, Errno, enotdir, Reply, done, link_target,
  file_info, errno, Prog, ◌>>=◌, pure, ask,
}
use mathlib.Core.List.{reverse}

abbrev pub zero_time : Time
zero_time = record { seconds = negsuc 62135596799; nanos = 0 }

-- What `mkdirAll` returns: the directories made, the first first.
pub record Made : Type 0 where
  pub stack : List Text
  pub top_mtime : Time
  pub err : Option Errno

abbrev pub none_made : Made
none_made = record { stack = []; top_mtime = zero_time; err = none }

-- The two scans of `mkdirAll`, on the reversed path.
abbrev pub skip_separators : Text → Text
skip_separators [] = []
skip_separators (c ∷ p) = let rest = skip_separators p in if c == slash then rest else c ∷ p

abbrev pub skip_element : Text → Text
skip_element [] = []
skip_element (c ∷ p) = let rest = skip_element p in if c == slash then c ∷ p else rest

-- `path[0:j]`, reversed.
abbrev pub before_element : Text → Text
before_element path = skip_element (skip_separators (reverse path))

-- `path[0:j-1]`, if there is a parent to make.
abbrev pub parent_of : Text → Option Text
parent_of path =
    if ltb 1 (length (before_element path))
    then some (reverse (drop 1 (before_element path)))
    else none

-- `filepath.Dir`
unfoldable pub dir_name : Text → Text
unfolding clean
dir_name path = clean (reverse (skip_element (reverse path)))

module _ (os : List Call → Call → Reply) (hdr : Header) where
  abbrev pub failed : Made → Errno → Made
  failed m e = record m { err = some e }

  abbrev pub chmodded : Made → Reply → Prog (Option Made)
  chmodded m (errno e) = pure (some (failed m e))
  chmodded m done = pure (some m)
  chmodded m (link_target t) = pure (some m)
  chmodded m (file_info d t) = pure (some m)

  abbrev pub standardize_mode : Text → Made → Prog (Option Made)
  standardize_mode path m = ask os (chmod path (file_mode hdr)) >>= chmodded m

  abbrev pub chowned : Text → Made → Reply → Prog (Option Made)
  chowned path m (errno e) = pure (some (failed m e))
  chowned path m done = standardize_mode path m
  chowned path m (link_target t) = standardize_mode path m
  chowned path m (file_info d t) = standardize_mode path m

  abbrev pub standardize : Text → Made → Prog (Option Made)
  standardize path m = ask os (lchown path hdr.uid hdr.gid) >>= chowned path m

  -- `Mkdir` failed: that is no error where the directory is there all the same.
  abbrev pub existing : Made → Errno → Reply → Prog (Option Made)
  existing m e (file_info true t) = pure (some m)
  existing m e (file_info false t) = pure (some (failed m e))
  existing m e done = pure (some (failed m e))
  existing m e (link_target t) = pure (some (failed m e))
  existing m e (errno f) = pure (some (failed m e))

  abbrev pub pushed : Text → Made → Made
  pushed path m = record m { stack = m.stack ++ (path ∷ []) }

  abbrev pub created : Text → Made → Reply → Prog (Option Made)
  created path m (errno e) = ask os (lstat path) >>= existing m e
  created path m done = standardize path (pushed path m)
  created path m (link_target t) = standardize path (pushed path m)
  created path m (file_info d t) = standardize path (pushed path m)

  -- The parent exists, or its making failed.
  abbrev pub make_in : Text → Option Errno → Made → Prog (Option Made)
  make_in path (some e) m = pure (some m)
  make_in path none m = ask os (mkdir path 493) >>= created path m

  abbrev pub with_parent : Text → Option Made → Prog (Option Made)
  with_parent path none = pure none
  with_parent path (some m) = make_in path m.err m

  abbrev pub make_parent : (Text → Prog (Option Made)) → Option Text → Prog (Option Made)
  make_parent above none = pure (some none_made)
  make_parent above (some parent) = above parent

  abbrev pub slow_path : (Text → Prog (Option Made)) → Text → Prog (Option Made)
  slow_path above path = make_parent above (parent_of path) >>= with_parent path

  abbrev pub stated : (Text → Prog (Option Made)) → Text → Reply → Prog (Option Made)
  stated above path (file_info true t) =
      pure (some (record { stack = []; top_mtime = t; err = none }))
  stated above path (file_info false t) =
      pure (some (record { stack = []; top_mtime = t; err = some enotdir }))
  stated above path done = slow_path above path
  stated above path (link_target t) = slow_path above path
  stated above path (errno e) = slow_path above path

  -- `mkdirAll`
  unfoldable pub mkdir_all : ℕ → Text → Prog (Option Made)
  mkdir_all zero path = pure none
  mkdir_all (suc n) path = ask os (stat path) >>= stated (mkdir_all n) path

  -- The loop over the stack from its end; an error ends it.
  abbrev pub timed : Prog (Option Errno) → Reply → Prog (Option Errno)
  timed rest (errno e) = pure (some e)
  timed rest done = rest
  timed rest (link_target t) = rest
  timed rest (file_info d t) = rest

  unfoldable pub set_all_times : List Text → Prog (Option Errno) → Prog (Option Errno)
  set_all_times [] rest = rest
  set_all_times (path ∷ paths) rest =
      ask os (lutimes_nano path hdr.access_time hdr.mod_time) >>= timed (set_all_times paths rest)

  abbrev pub repair_top : Text → Time → Prog (Option Errno)
  repair_top top mtime =
      if top == dot
      then pure none
      else (ask os (lutimes_nano top epochwhen mtime) >>= timed (pure none))

  abbrev pub finish_stack : List Text → Time → Prog (Option Errno)
  finish_stack [] mtime = pure none
  finish_stack (first ∷ stack) mtime =
      set_all_times (reverse (first ∷ stack)) (repair_top (dir_name first) mtime)

  abbrev pub finish_error : Option Errno → Made → Prog (Option Errno)
  finish_error (some e) m = pure (some e)
  finish_error none m = finish_stack m.stack m.top_mtime

  abbrev pub some_of : Prog (Option Errno) → Prog (Option (Option Errno))
  some_of m = m >>= λ e. pure (some e)

  abbrev pub finish_made : Option Made → Prog (Option (Option Errno))
  finish_made none = pure none
  finish_made (some m) = some_of (finish_error m.err m)

  -- `MkdirAllWithAttribs`, with a level of fuel for each byte of the path and one more.
  unfoldable pub mkdir_all_with_attribs : Text → Prog (Option (Option Errno))
  unfolding mkdir_all dir_name
  mkdir_all_with_attribs path = mkdir_all (suc (length path)) path >>= finish_made

-- `MkdirAll`
abbrev pub default_dir : Header
default_dir = record {
  name = [];
  linkname = [];
  typeflag = 0;
  mode = 493;
  uid = pos 0;
  gid = pos 0;
  mod_time = epochwhen;
  access_time = epochwhen;
  change_time = zero_time;
  dev_major = pos 0;
  dev_minor = pos 0;
  xattrs = [];
}

module _ (os : List Call → Call → Reply) where
  -- The deferred `LUtimesNano`, whose error is disregarded; a panic of the thunk goes on after it.
  abbrev pub repaired : Text → Time → Prog (Unit {0}) → Prog (Unit {0})
  repaired path mtime thunk calls =
      let (r, later) = thunk calls in (r, later ++ (lutimes_nano path epochwhen mtime ∷ []))

  abbrev pub repairing : Text → Prog (Unit {0}) → Reply → Prog (Unit {0})
  repairing path thunk (file_info d mtime) = repaired path mtime thunk
  repairing path thunk done = thunk
  repairing path thunk (link_target t) = thunk
  repairing path thunk (errno e) = thunk

  -- `WithMtimeRepair`
  unfoldable pub with_mtime_repair : Text → Prog (Unit {0}) → Prog (Unit {0})
  with_mtime_repair path thunk = ask os (stat path) >>= repairing path thunk

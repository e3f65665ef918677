-- ===== src/Emplace/Place.antt =====
-- `PlaceFile` and `PlaceDirTime` of lib/fs/emplacements.go.
use repeatr.Base.{
  ℕ, ◌+◌, ◌-◌, ◌%◌, ℤ, true, false, Text, List, [], ◌∷◌, ◌++◌, ◌==◌, nat_eq, text_eq, if◌then◌else◌,
  pos, negsuc,
}
use repeatr.Base.Dict.{Dict}
use repeatr.Base.Paths.{path_join, split_path, has_prefix, slash}
use repeatr.Fs.{
  Header, type_reg, type_link, type_symlink, type_char, type_block, type_dir, type_fifo, file_mode,
}
use repeatr.Fs.Device.{mkdev}
use repeatr.Emplace.{
  Call, readlink, lstat, copy_body, close_file, mkdir, open_write, mkfifo, chmod, symlink, link,
  mknod, lchown, lsetxattr, utimes_nano, lutimes_nano, not_exist, invalid_argument, enotdir,
  other_errno, Reply, done, link_target, file_info, errno, breakout, io_error, unhandled_mode, Prog,
  ◌>>=◌, ◌>>◌, pure, panic, ask, must,
}

-- What the 64 bits of a device number spell.
abbrev number : ℤ → ℕ
number (pos n) = n
number (negsuc n) = 18446744073709551615 - n

-- The mode of `mknod`, with `S_IFBLK` and `S_IFCHR`.
abbrev pub block_mode : Header → ℕ
block_mode hdr = hdr.mode % 4096 + 24576

abbrev pub char_mode : Header → ℕ
char_mode hdr = hdr.mode % 4096 + 8192

abbrev pub device_of : Header → ℕ
device_of hdr = mkdev (number hdr.dev_major) (number hdr.dev_minor)

module _ (os : List Call → Call → Reply) where
  -- What `PlaceFile` makes of `Readlink`'s answer: only "no such file" and "not a link" let it go on.
  abbrev pub not_link : Reply → Prog (Unit {0})
  not_link (errno not_exist) = pure tt
  not_link (errno invalid_argument) = pure tt
  not_link (errno enotdir) = panic (io_error enotdir)
  not_link (errno (other_errno n)) = panic (io_error (other_errno n))
  not_link done = panic breakout
  not_link (link_target t) = panic breakout
  not_link (file_info d t) = panic breakout

  -- The loop over the parts of the name: what is above each of them, from `above` on.
  unfoldable pub check_links : List Text → List Text → Prog (Unit {0})
  check_links above [] = pure tt
  check_links above (part ∷ parts) =
      ask os (readlink (path_join above)) >>= not_link >> check_links (above ++ (part ∷ [])) parts

  abbrev pub made_dir : Text → ℕ → Reply → Prog (Unit {0})
  made_dir path mode (file_info true t) = pure tt
  made_dir path mode (file_info false t) = must os (mkdir path mode)
  made_dir path mode done = must os (mkdir path mode)
  made_dir path mode (link_target t) = must os (mkdir path mode)
  made_dir path mode (errno e) = must os (mkdir path mode)

  abbrev pub place_dir : Text → Text → ℕ → Prog (Unit {0})
  place_dir path name mode =
      if name == (46 ∷ slash ∷ [])
      then (ask os (lstat path) >>= made_dir path mode)
      else must os (mkdir path mode)

  abbrev pub closed : Text → Prog (Unit {0})
  closed path = ask os (close_file path) >>= λ _. pure tt

  abbrev pub copied : Text → Reply → Prog (Unit {0})
  copied path (errno e) = ask os (close_file path) >>= λ _. panic (io_error e)
  copied path done = closed path
  copied path (link_target t) = closed path
  copied path (file_info d t) = closed path

  abbrev pub copy_into : Text → Prog (Unit {0})
  copy_into path = ask os (copy_body path) >>= copied path

  abbrev pub place_reg : Text → ℕ → Prog (Unit {0})
  place_reg path mode = must os (open_write path mode) >> copy_into path

  -- The hard link, if its target begins with the base path.
  abbrev pub place_link : Text → Text → Text → Prog (Unit {0})
  place_link base path target =
      if has_prefix target base then must os (link target path) else panic breakout

  -- The `switch` over the types of file.
  unfoldable pub place_type : Text → Header → Text → Prog (Unit {0})
  place_type base hdr path =
      if hdr.typeflag == type_dir
      then place_dir path hdr.name (file_mode hdr)
      else if hdr.typeflag == type_reg
      then place_reg path (file_mode hdr)
      else if hdr.typeflag == type_symlink
      then must os (symlink hdr.linkname path)
      else if hdr.typeflag == type_link
      then place_link base path (path_join (base ∷ hdr.linkname ∷ []))
      else if hdr.typeflag == type_block
      then must os (mknod path (block_mode hdr) (device_of hdr))
      else if hdr.typeflag == type_char
      then must os (mknod path (char_mode hdr) (device_of hdr))
      else if hdr.typeflag == type_fifo
      then must os (mkfifo path (hdr.mode % 4096))
      else panic unhandled_mode

  -- The loop over the extended attributes, in the order in which the map gives them.
  unfoldable pub set_xattrs : Text → Dict Text Text → Prog (Unit {0})
  set_xattrs path [] = pure tt
  set_xattrs path ((key, v) ∷ rest) = must os (lsetxattr path key v) >> set_xattrs path rest

  -- The times, and before them the mode of anything but a symlink.
  unfoldable pub set_times : Header → Text → Prog (Unit {0})
  set_times hdr path =
      if hdr.typeflag == type_symlink
      then must os (lutimes_nano path hdr.access_time hdr.mod_time)
      else must os (chmod path (file_mode hdr))
        >> must os (utimes_nano path hdr.access_time hdr.mod_time)

  -- What `PlaceFile` does once no part of the path is a symlink.
  unfoldable pub place_checked : Text → Header → Text → Prog (Unit {0})
  unfolding place_type set_xattrs set_times
  place_checked base hdr path =
      place_type base hdr path
      >> must os (lchown path hdr.uid hdr.gid)
      >> set_xattrs path hdr.xattrs
      >> set_times hdr path

  -- `PlaceFile`
  unfoldable pub place_file : Text → Header → Prog (Unit {0})
  unfolding check_links place_checked path_join split_path
  place_file base hdr =
      check_links (base ∷ []) (split_path hdr.name)
      >> place_checked base hdr (path_join (base ∷ hdr.name ∷ []))

  -- `PlaceDirTime`
  unfoldable pub place_dir_time : Text → Header → Prog (Unit {0})
  unfolding path_join
  place_dir_time base hdr =
      must os (lutimes_nano (path_join (base ∷ hdr.name ∷ [])) hdr.access_time hdr.mod_time)

-- ===== src/Emplace/Examples.antt =====
-- Tests of lib/fs/emplacements.go on two systems, and the theorems there.
use repeatr.Base.{
  ◌≡◌, refl, true, str, text_eq, nat_eq, Option, none, some, List, [], ◌∷◌, ◌++◌, ◌⊎◌, ◌==◌,
  if◌then◌else◌, pos,
}
use repeatr.Base.Paths.{path_join, split_path, has_prefix}
use repeatr.Fs.{Header, file_mode, type_link, type_reg, epochwhen}
use repeatr.Emplace.{
  Call, Errno, readlink, open_write, copy_body, close_file, stat, mkdir, lchown, chmod, link,
  lutimes_nano, utimes_nano, invalid_argument, not_exist, Reply, done, file_info, link_target,
  errno, breakout, value, panicked,
}
use repeatr.Emplace.Place.{place_file, place_checked}
use repeatr.Emplace.Mkdir.{mkdir_all, mkdir_all_with_attribs, set_all_times, default_dir, zero_time}
use repeatr.Emplace.Breakout.{looks, IsClear, Refused, place_file-Refused}
use repeatr.Emplace.Fuel.{mkdir_all_with_attribs-Ends}

-- A system where `/` is a directory, nothing else is there, and everything can be made.
abbrev answer : Call → Reply
answer (readlink p) = errno invalid_argument
answer (stat p) = if p == str "/" then file_info true epochwhen else errno not_exist
answer c = done

abbrev os : List Call → Call → Reply
os calls c = answer c

-- A system where every path is a symlink.
abbrev all_links : List Call → Call → Reply
all_links calls c = link_target (str "/etc")

abbrev file : Header
file = record default_dir { name = str "a/b"; typeflag = type_reg }

abbrev hard_link : Header
hard_link = record default_dir { name = str "a"; linkname = str "../base2/x"; typeflag = type_link }

-- The target is outside of the base, and is linked all the same: its path begins with the letters of the base's.
breakout_runs : place_file os (str "/base") hard_link [] ≡ (
  value tt,
  readlink (str "/base")
      ∷ link (str "/base2/x") (str "/base/a")
      ∷ lchown (str "/base/a") (pos 0) (pos 0)
      ∷ chmod (str "/base/a") 493
      ∷ utimes_nano (str "/base/a") epochwhen epochwhen
      ∷ [],
)
unfolding place_file text_eq nat_eq has_prefix file_mode
breakout_runs = refl

abbrev plain : Header
plain = record default_dir { name = str "a"; typeflag = type_reg }

abbrev dotted : Header
dotted = record default_dir { name = str "../x"; typeflag = type_reg }

-- The last part of the path is not asked about: a file is opened where a symlink may be.
last_part_runs : place_file os (str "/base") plain [] ≡ (
  value tt,
  readlink (str "/base")
      ∷ open_write (str "/base/a") 493
      ∷ copy_body (str "/base/a")
      ∷ close_file (str "/base/a")
      ∷ lchown (str "/base/a") (pos 0) (pos 0)
      ∷ chmod (str "/base/a") 493
      ∷ utimes_nano (str "/base/a") epochwhen epochwhen
      ∷ [],
)
unfolding place_file text_eq nat_eq has_prefix file_mode
last_part_runs = refl

-- A name with `..` in it is outside of the base, and is placed all the same.
dots_runs : place_file os (str "/base") dotted [] ≡ (
  value tt,
  readlink (str "/base")
      ∷ readlink (str "/")
      ∷ open_write (str "/x") 493
      ∷ copy_body (str "/x")
      ∷ close_file (str "/x")
      ∷ lchown (str "/x") (pos 0) (pos 0)
      ∷ chmod (str "/x") 493
      ∷ utimes_nano (str "/x") epochwhen epochwhen
      ∷ [],
)
unfolding place_file text_eq nat_eq has_prefix file_mode
dots_runs = refl

refused_runs :
    place_file all_links (str "/base") file [] ≡ (panicked breakout, readlink (str "/base") ∷ [])
unfolding place_file text_eq nat_eq
refused_runs = refl

mkdir_runs :
    (mkdir_all os default_dir 9 (str "/x/y/") []).0
    ≡ value
        (some (record { stack = str "/x" ∷ str "/x/y/" ∷ []; top_mtime = zero_time; err = none }))
unfolding mkdir_all text_eq nat_eq
mkdir_runs = refl

-- The root's own time is never read where a directory is made in it, and year 1 is written to it.
root_time_runs :
    (mkdir_all_with_attribs os default_dir (str "/x") []).1
    ≡ stat (str "/x")
      ∷ mkdir (str "/x") 493
      ∷ lchown (str "/x") (pos 0) (pos 0)
      ∷ chmod (str "/x") 493
      ∷ lutimes_nano (str "/x") epochwhen epochwhen
      ∷ lutimes_nano (str "/") epochwhen zero_time
      ∷ []
unfolding mkdir_all_with_attribs text_eq nat_eq file_mode set_all_times
root_time_runs = refl

place_file-Refused_example :
    Refused all_links (place_file all_links (str "/base") file []) []
    ⊎ (IsClear all_links [] (looks (str "/base" ∷ []) (split_path (str "a/b")))
        × (place_file all_links (str "/base") file []
            ≡ place_checked all_links
                (str "/base")
                file
                (path_join (str "/base" ∷ str "a/b" ∷ []))
                ([] ++ looks (str "/base" ∷ []) (split_path (str "a/b")))))
place_file-Refused_example = place_file-Refused all_links (str "/base") file []

mkdir_all_with_attribs-Ends_example :
    (e : Option Errno) × ((mkdir_all_with_attribs os default_dir (str "/x/y") []).0
      ≡ value (some e))
mkdir_all_with_attribs-Ends_example = mkdir_all_with_attribs-Ends os default_dir (str "/x/y") []

-- ===== src/Fs.antt =====
-- lib/fs: the metadata of a file, and its canonical encoding (metadata.go, somewhen.go). The codec
-- library is left as the items it is told to write.
pub mod Marshal
pub mod Device
mod Examples
use repeatr.Base.{
  ℕ, ◌+◌, ◌/◌, ◌%◌, ℤ, pos, negsuc, Bool, false, not, ◌&&◌, ◌||◌, Text, str, List, [], ◌∷◌, ◌++◌,
  ◌==◌, nat_eq, text_eq, length, if◌then◌else◌,
}
use repeatr.Base.Dict.{Dict}
use repeatr.Base.Sort.{sort_by}
use repeatr.Base.Paths.{base_name}
use repeatr.Formula.{Time}

-- The bytes of `Typeflag`: `tar.TypeReg` and the others.
abbrev pub type_reg : ℕ
type_reg = 48

abbrev pub type_link : ℕ
type_link = 49

abbrev pub type_symlink : ℕ
type_symlink = 50

abbrev pub type_char : ℕ
type_char = 51

abbrev pub type_block : ℕ
type_block = 52

abbrev pub type_dir : ℕ
type_dir = 53

abbrev pub type_fifo : ℕ
type_fifo = 54

-- `type Metadata tar.Header`, with the fields that the code uses. `mode` is the number that the 64
-- bits of `Mode` spell, and `xattrs` is the map in the order in which it is ranged over.
pub record Header : Type 0 where
  pub name : Text
  pub linkname : Text
  pub typeflag : ℕ
  pub mode : ℕ
  pub uid : ℤ
  pub gid : ℤ
  pub mod_time : Time
  pub access_time : Time
  pub change_time : Time
  pub dev_major : ℤ
  pub dev_minor : ℤ
  pub xattrs : Dict Text Text

-- `Epochwhen`
abbrev pub epochwhen : Time
epochwhen = record { seconds = pos 0; nanos = 0 }

abbrev bit : ℕ → ℕ → ℕ → ℕ
bit mode mask value = if (mode / mask) % 2 == 0 then 0 else value

-- `FileMode`, with the bits of `os.ModeSetuid`, `os.ModeSetgid` and `os.ModeSticky`.
unfoldable pub file_mode : Header → ℕ
file_mode m =
    m.mode % 512 + bit m.mode 2048 8388608 + bit m.mode 1024 4194304 + bit m.mode 512 1048576

-- What an encoder is told to write.
pub data Item : Type 0 where
  map_start : ℕ → Item
  text_item bytes_item : Text → Item
  int_item : ℤ → Item
  array_start array_break : Item

abbrev pub is_device : Header → Bool
is_device m = m.typeflag == type_block || m.typeflag == type_char

abbrev pub has_linkname : Header → Bool
has_linkname m = not (m.linkname == [])

abbrev pub has_xattrs : Header → Bool
has_xattrs m = not (length m.xattrs == 0)

-- `fieldCount`
abbrev pub field_count : Header → ℕ
field_count m =
    7
    + (if has_linkname m then 1 else 0)
    + (if has_xattrs m then 1 else 0)
    + (if is_device m then 2 else 0)

abbrev year_one : ℤ → Bool
year_one (pos n) = false
year_one (negsuc n) = n == 62135596799

-- `ModTime.IsZero`: the start of year 1.
abbrev is_zero : Time → Bool
is_zero t = year_one t.seconds && t.nanos == 0

abbrev hashed_time : Header → Time
hashed_time m = if is_zero m.mod_time then epochwhen else m.mod_time

-- The fields that every file has.
unfoldable pub marshal_common : Header → List Item
marshal_common m =
    text_item (str "n")
    ∷ text_item (base_name m.name)
    ∷ text_item (str "t")
    ∷ int_item (pos m.typeflag)
    ∷ text_item (str "m")
    ∷ int_item (pos (m.mode % 4096))
    ∷ text_item (str "u")
    ∷ int_item m.uid
    ∷ text_item (str "g")
    ∷ int_item m.gid
    ∷ text_item (str "tm")
    ∷ int_item (hashed_time m).seconds
    ∷ text_item (str "tmn")
    ∷ int_item (pos (hashed_time m).nanos)
    ∷ []

unfoldable pub marshal_linkname : Header → List Item
marshal_linkname m = if has_linkname m then text_item (str "l") ∷ text_item m.linkname ∷ [] else []

unfoldable pub marshal_device : Header → List Item
marshal_device m =
    if is_device m
    then text_item (str "dM")
      ∷ int_item m.dev_major
      ∷ text_item (str "dm")
      ∷ int_item m.dev_minor
      ∷ []
    else []

-- The loop over the sorted pairs.
unfoldable pub marshal_pairs : Dict Text Text → List Item
marshal_pairs [] = []
marshal_pairs ((k, v) ∷ rest) = text_item k ∷ text_item v ∷ marshal_pairs rest

unfoldable pub marshal_xattrs : Header → List Item
unfolding marshal_pairs
marshal_xattrs m =
    if has_xattrs m
    then text_item (str "x")
      ∷ map_start (length m.xattrs)
      ∷ marshal_pairs (sort_by (λ line. line.0) m.xattrs)
    else []

-- `Metadata.Marshal`
unfoldable pub marshal : Header → List Item
unfolding marshal_common marshal_linkname marshal_device marshal_xattrs
marshal m =
    map_start (field_count m)
    ∷ (marshal_common m ++ marshal_linkname m ++ marshal_device m ++ marshal_xattrs m)

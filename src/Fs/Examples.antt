-- ===== src/Fs/Examples.antt =====
-- Tests of lib/fs, and the theorems at concrete inputs.
use repeatr.Base.{◌+◌, ◌%◌, ◌≡◌, refl, Text, str, text_eq, nat_eq, pos, [], ◌∷◌, ◌++◌, ne-of-==}
use repeatr.Base.Dict.{Dict}
use repeatr.Base.Sort.{IsKeyed}
use repeatr.Base.Paths.{clean, path_join, base_name}
use repeatr.Fs.{Header, type_char, epochwhen, file_mode, text_item, marshal}
use repeatr.Fs.Device.{mkdev, read_dev, read_dev-mkdev}
use repeatr.Fs.Marshal.{is_complete, complete-marshal, marshal_perm}
use mathlib.Core.List.Permᴰ.{Permᴰ}

abbrev pairs : Dict Text Text
pairs = (str "user.b", str "2") ∷ (str "user.a", str "1") ∷ []

abbrev swapped : Dict Text Text
swapped = (str "user.a", str "1") ∷ (str "user.b", str "2") ∷ []

-- A character device with setuid and two extended attributes.
abbrev device : Header
device = record {
  name = str "./dev/tty";
  linkname = [];
  typeflag = type_char;
  mode = 2541;
  uid = pos 0;
  gid = pos 5;
  mod_time = epochwhen;
  access_time = epochwhen;
  change_time = epochwhen;
  dev_major = pos 4;
  dev_minor = pos 1;
  xattrs = pairs;
}

file_mode_runs : file_mode device ≡ 493 + 8388608
unfolding file_mode nat_eq
file_mode_runs = refl

clean_runs : clean (str "a//b/./../c/") ≡ str "a/c"
unfolding clean text_eq nat_eq
clean_runs = refl

clean_up_runs : clean (str "../../x/..") ≡ str "../.."
unfolding clean text_eq nat_eq
clean_up_runs = refl

path_join_runs : path_join (str "/base" ∷ str "./a/../b" ∷ []) ≡ str "/base/b"
unfolding path_join text_eq nat_eq
path_join_runs = refl

base_name_runs : base_name (str "./a/bc/") ≡ str "bc"
unfolding base_name text_eq nat_eq
base_name_runs = refl

complete-marshal_example :
    is_complete 2 (3 ∷ []) (marshal device ++ (text_item [] ∷ []))
    ≡ is_complete 1 (3 ∷ []) (text_item [] ∷ [])
complete-marshal_example = complete-marshal 1 (3 ∷ []) (text_item [] ∷ []) device

pairs-IsKeyed : IsKeyed (λ line. line.0) pairs
unfolding text_eq
pairs-IsKeyed = ((λ e. absurd (ne-of-== (str "user.b") (str "user.a") refl e), tt), (tt, tt))

marshal_perm_example : marshal (record device { xattrs = swapped }) ≡ marshal device
marshal_perm_example = marshal_perm device swapped (Permᴰ.swap refl refl) pairs-IsKeyed

read_dev-mkdev_example : read_dev (mkdev 259 3) ≡ (259 % 256, 3 % 1048576)
read_dev-mkdev_example = read_dev-mkdev 259 3

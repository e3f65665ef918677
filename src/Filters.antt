-- ===== src/Filters.antt =====
-- `Filters.AsStringSlice` and `FromStringSlice` of api/def/formulaMounts_serial.go, and the defaults
-- of formulaMounts_ops.go. A panic is `none`. The section's parameters are `fmt`'s `%d`,
-- `strconv.Atoi`, `strings.Fields`, and `time.Parse(time.RFC3339, ...)` of the joined words.
pub mod RoundTrip
pub mod Defaults
mod Examples
use mathlib.Core.Option
use repeatr.Base.{
  ℕ, ℤ, Bool, true, false, pos, negsuc, Option, none, some, List, [], ◌∷◌, ◌++◌, Text, str, text_eq,
  nat_eq, ◌==◌, if◌then◌else◌,
}
use repeatr.Formula.{
  Filters, FilterMode, filter_uninitialized, filter_use, filter_keep, filter_host, Time,
}

-- `time.Unix(n, 0).UTC()`
abbrev pub unix : ℤ → Time
unix n = record { seconds = n; nanos = 0 }

-- `Filters{}`; the zero time is the first day of the year 1.
abbrev pub zero_filters : Filters
zero_filters = record {
  uid_mode = filter_uninitialized;
  uid = pos 0;
  gid_mode = filter_uninitialized;
  gid = pos 0;
  mtime_mode = filter_uninitialized;
  mtime = unix (negsuc 62135596799);
}

-- One `switch` of `AsStringSlice`, with the line for a value.
abbrev pub line_of : FilterMode → Text → Text → Option (List Text)
line_of filter_uninitialized name value = some []
line_of filter_use name value = some ((name ++ (32 ∷ value)) ∷ [])
line_of filter_keep name value = some ((name ++ (32 ∷ str "keep")) ∷ [])
line_of filter_host name value = none

abbrev pub and_then : Option (List Text) → Option (List Text) → Option (List Text)
and_then none ys = none
and_then (some xs) none = none
and_then (some xs) (some ys) = some (xs ++ ys)

abbrev pub set_uid : Filters → ℤ → Option Filters
set_uid f (pos n) = some (record f { uid_mode = filter_use; uid = pos n })
set_uid f (negsuc n) = none

abbrev pub set_gid : Filters → ℤ → Option Filters
set_gid f (pos n) = some (record f { gid_mode = filter_use; gid = pos n })
set_gid f (negsuc n) = none

abbrev pub set_mtime : Filters → Time → Option Filters
set_mtime f t = some (record f { mtime_mode = filter_use; mtime = t })

abbrev pub bind {ℓ} : {A : Type ℓ} → Option A → (A → Option Filters) → Option Filters
bind none k = none
bind (some a) k = k a

module _ (itoa : ℤ → Text) (atoi : Text → Option ℤ) (fields : Text → List Text)
    (parse_date : List Text → Option Time) where
  -- `AsStringSlice`
  unfoldable pub as_string_slice : Filters → Option (List Text)
  as_string_slice f = and_then (line_of f.uid_mode (str "uid") (itoa f.uid)) (
      and_then (line_of f.gid_mode (str "gid") (itoa f.gid))
        (line_of f.mtime_mode (str "mtime") (64 ∷ itoa f.mtime.seconds)))

  -- `case "uid"`, with the words after the first.
  abbrev pub uid_case : Filters → List Text → Option Filters
  uid_case f [] = none
  uid_case f (x ∷ []) =
      if x == str "keep"
      then some (record f { uid_mode = filter_keep })
      else bind (atoi x) (set_uid f)
  uid_case f (x ∷ y ∷ words) = none

  -- `case "gid"`
  abbrev pub gid_case : Filters → List Text → Option Filters
  gid_case f [] = none
  gid_case f (x ∷ []) =
      if x == str "keep"
      then some (record f { gid_mode = filter_keep })
      else bind (atoi x) (set_gid f)
  gid_case f (x ∷ y ∷ words) = none

  -- The two rules for one word that is not `keep`.
  abbrev pub date_word : Filters → Text → Option Filters
  date_word f [] = none
  date_word f (c ∷ cs) =
      if c == 64
      then bind (atoi cs) (λ n. set_mtime f (unix n))
      else bind (parse_date ((c ∷ cs) ∷ [])) (set_mtime f)

  -- `case "mtime"`
  abbrev pub mtime_case : Filters → List Text → Option Filters
  mtime_case f [] = none
  mtime_case f (x ∷ []) =
      if x == str "keep" then some (record f { mtime_mode = filter_keep }) else date_word f x
  mtime_case f (x ∷ y ∷ words) = bind (parse_date (x ∷ y ∷ words)) (set_mtime f)

  -- One round of the loop, with the words of the line.
  unfoldable pub apply_words : Filters → List Text → Option Filters
  apply_words f [] = some f
  apply_words f (name ∷ words) =
      if name == str "uid"
      then uid_case f words
      else if name == str "gid"
      then gid_case f words
      else if name == str "mtime"
      then mtime_case f words
      else none

  -- `FromStringSlice`
  unfoldable pub from_string_slice : List Text → Filters → Option Filters
  unfolding apply_words
  from_string_slice [] f = some f
  from_string_slice (line ∷ lines) f = bind (apply_words f (fields line)) (from_string_slice lines)

abbrev pub is_unset : FilterMode → Bool
is_unset filter_uninitialized = true
is_unset filter_use = false
is_unset filter_keep = false
is_unset filter_host = false

-- `InitDefaultsInput`
unfoldable pub init_defaults_input : Filters → Filters
init_defaults_input f = record f {
  uid_mode = if is_unset f.uid_mode then filter_keep else f.uid_mode;
  gid_mode = if is_unset f.gid_mode then filter_keep else f.gid_mode;
  mtime_mode = if is_unset f.mtime_mode then filter_keep else f.mtime_mode;
}

-- `FilterDefaultUid`, `FilterDefaultGid` and `FilterDefaultMtime`, the start of 2010.
abbrev pub default_owner : ℤ
default_owner = pos 1000

abbrev pub default_mtime : Time
default_mtime = unix (pos 1262304000)

-- `InitDefaultsOutput`
unfoldable pub init_defaults_output : Filters → Filters
init_defaults_output f = record {
  uid_mode = if is_unset f.uid_mode then filter_use else f.uid_mode;
  uid = if is_unset f.uid_mode then default_owner else f.uid;
  gid_mode = if is_unset f.gid_mode then filter_use else f.gid_mode;
  gid = if is_unset f.gid_mode then default_owner else f.gid;
  mtime_mode = if is_unset f.mtime_mode then filter_use else f.mtime_mode;
  mtime = if is_unset f.mtime_mode then default_mtime else f.mtime;
}

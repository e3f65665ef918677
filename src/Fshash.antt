-- ===== src/Fshash.antt =====
-- lib/fshash: the bucket of file records (bucket.go, bucket_memory.go) and the hash of the tree that
-- they make (hash.go). The hash function is an argument: the digest of what the items written to a
-- hasher encode to. Hashers are shared between the stack of hashers and the functions that children
-- report to, so they stand at addresses.
pub mod Tree
pub mod Shape
pub mod Unique
pub mod State
pub mod Growth
pub mod Span
pub mod Visits
pub mod Found
pub mod Children
pub mod Refinement
pub mod Outcome
mod Examples
use repeatr.Base.{
  ℕ, zero, suc, ◌+◌, ◌-◌, Bool, true, false, Text, str, Option, none, some, List, [], ◌∷◌, ◌++◌,
  ◌==◌, nat_eq, text_eq, length, get_elem?, take, drop, contains, if◌then◌else◌, ◌⊎◌, inl, inr, ltb,
  pos,
}
use repeatr.Base.Sort.{sort_by}
use repeatr.Base.Paths.{clean, is_abs, has_prefix, slash, dot}
use repeatr.Treewalk.{Run, returned, panicked, Answer, ok, walk}
use repeatr.Fs.{
  Header, type_dir, epochwhen, Item, map_start, text_item, bytes_item, array_start, array_break,
  marshal,
}

-- `./`
abbrev pub here : Text
here = 46 ∷ slash ∷ []

abbrev relative : Text → Text
relative p = if is_abs p then drop 1 p else p

-- What `Normalize` does with the cleaned path.
abbrev pub normal_of : Bool → Text → Text
normal_of is_dir p =
    if p == dot then here else here ++ (relative p ++ (if is_dir then slash ∷ [] else []))

-- `Normalize`
unfoldable pub normalize : Text → Bool → Text
unfolding clean
normalize p is_dir = normal_of is_dir (clean p)

-- `type Record struct`
pub record Record : Type 0 where
  pub metadata : Header
  pub content_hash : Text

abbrev pub name_of : Record → Text
name_of r = r.metadata.name

abbrev pub is_dir_record : Record → Bool
is_dir_record r = r.metadata.typeflag == type_dir

-- `DefaultDirRecord`, with the name `./` that makes it `DefaultRoot`.
abbrev pub default_root : Record
default_root = record {
  metadata = record {
    name = here;
    linkname = [];
    typeflag = type_dir;
    mode = 493;
    uid = pos 0;
    gid = pos 0;
    mod_time = epochwhen;
    access_time = epochwhen;
    change_time = epochwhen;
    dev_major = pos 0;
    dev_minor = pos 0;
    xattrs = [];
  };
  content_hash = [];
}

-- The panics: the errors of bucket.go, those of Go itself, and the two checks after the walk.
pub data Panic : Type 0 where
  invalid_parameter missing_tree path_collision : Panic
  slice_bounds index_range : Panic
  stacks_not_empty visited_other : Panic

-- `MemoryBucket.Record`
unfoldable pub record_line : Header → Text → List Record → Panic ⊎ List Record
unfolding normalize
record_line metadata content lines =
    if metadata.name == normalize metadata.name (metadata.typeflag == type_dir)
    then inr (lines ++ (record { metadata = metadata; content_hash = content } ∷ []))
    else inl invalid_parameter

abbrev pub rooted : List Record → List Record
rooted [] = default_root ∷ []
rooted (r ∷ rs) = if name_of r == here then r ∷ rs else default_root ∷ r ∷ rs

-- What `MemoryBucket.Iterator` makes of the lines.
unfoldable pub iterator : List Record → List Record
unfolding sort_by
iterator lines = rooted (sort_by name_of lines)

-- `nextName[len(thisName):len(nextName)-1]`, within its bounds.
abbrev pub between : Text → Text → Text
between next_name this_name =
    take (length next_name - 1 - length this_name) (drop (length this_name) next_name)

-- What `NextChild` does once it has the next line: its index, or nil.
unfoldable pub child_at : ℕ → Text → Text → Text → Panic ⊎ Option ℕ
unfolding has_prefix
child_at next next_name this_name that_name =
    if has_prefix next_name this_name
    then if ltb (length this_name) (length next_name)
      then if contains (between next_name this_name) slash
        then inl missing_tree
        else if that_name == next_name
        then inl path_collision
        else inr (some next)
      else inl slice_bounds
    else inr none

abbrev named : Option Record → (Text → Panic ⊎ Option ℕ) → Panic ⊎ Option ℕ
named none k = inl index_range
named (some r) k = k (name_of r)

abbrev unless_last : Option Record → (Text → Panic ⊎ Option ℕ) → Panic ⊎ Option ℕ
unless_last none k = inr none
unless_last (some r) k = k (name_of r)

-- `memoryBucketIterator.NextChild` of the line `this`, where `that` is the last line walked.
unfoldable pub next_line : List Record → ℕ → ℕ → Panic ⊎ Option ℕ
unfolding child_at
next_line lines this that = unless_last (get_elem? lines (suc that)) (λ next_name.
    named (get_elem? lines this)
      (λ this_name. named (get_elem? lines that) (child_at (suc that) next_name this_name)))

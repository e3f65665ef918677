-- ===== src/Base/Paths.antt =====
-- What the code uses of Go's `strings`, `path` and `path/filepath` on Unix, on texts of bytes.
use repeatr.Base.Tests.{if◌then◌else◌}
use repeatr.Base.Equality.{Text, ◌==◌, nat_eq, text_eq, eq-of-==, ==-refl}
use repeatr.Base.Lists.{length, drop}
use Prim.Native.Nat.{ℕ}
use mathlib.Core.Path.{◌≡◌, refl}
use mathlib.Core.Bool.{Bool, true, false, ◌&&◌, ◌||◌}
use mathlib.Core.List.{List, [], ◌∷◌, ◌++◌, reverse}
use native.Mathlib.Omega.{arith}

-- '/' and '.'
abbrev pub slash : ℕ
slash = 47

abbrev pub dot : Text
dot = 46 ∷ []

abbrev dots : Text
dots = 46 ∷ 46 ∷ []

-- `strings.HasPrefix`
unfoldable pub has_prefix : Text → Text → Bool
has_prefix s [] = true
has_prefix [] (c ∷ prefix) = false
has_prefix (b ∷ s) (c ∷ prefix) = b == c && has_prefix s prefix

-- `strings.HasSuffix`
abbrev pub has_suffix : Text → Text → Bool
has_suffix s suffix = has_prefix (reverse s) (reverse suffix)

abbrev onto_first : ℕ → List Text → List Text
onto_first c [] = (c ∷ []) ∷ []
onto_first c (part ∷ parts) = (c ∷ part) ∷ parts

-- `strings.Split` at each slash.
unfoldable pub split_path : Text → List Text
split_path [] = [] ∷ []
split_path (c ∷ s) =
    let parts = split_path s in if c == slash then [] ∷ parts else onto_first c parts

-- `strings.Join` with a slash between.
unfoldable pub with_slashes : List Text → Text
with_slashes [] = []
with_slashes (part ∷ []) = part
with_slashes (part ∷ next ∷ parts) = part ++ (slash ∷ with_slashes (next ∷ parts))

-- `path.IsAbs`
abbrev pub is_abs : Text → Bool
is_abs [] = false
is_abs (c ∷ p) = c == slash

-- Back over the last element, unless there is none: then it is kept, or is the root's own parent.
abbrev back : Bool → List Text → List Text
back rooted [] = if rooted then [] else dots ∷ []
back rooted (part ∷ out) = if part == dots then dots ∷ part ∷ out else out

-- The elements of a path, the last first in `out`, with `.` and `..` resolved by name.
unfoldable pub clean_parts : Bool → List Text → List Text → List Text
clean_parts rooted [] out = reverse out
clean_parts rooted (part ∷ parts) out = clean_parts rooted parts (
    if part == [] || part == dot then out else if part == dots then back rooted out else part ∷ out)

abbrev rooted_at : Bool → Text → Text
rooted_at true p = slash ∷ p
rooted_at false [] = dot
rooted_at false (c ∷ p) = c ∷ p

-- `path.Clean`
unfoldable pub clean : Text → Text
unfolding clean_parts split_path with_slashes
clean p = rooted_at (is_abs p) (with_slashes (clean_parts (is_abs p) (split_path p) []))

abbrev without_empty : List Text → List Text
without_empty [] = []
without_empty (part ∷ parts) = if part == [] then without_empty parts else part ∷ parts

abbrev cleaned : List Text → Text
cleaned [] = []
cleaned (part ∷ parts) = clean (with_slashes (part ∷ parts))

-- `filepath.Join`: empty elements in front are dropped, and the rest is cleaned.
unfoldable pub path_join : List Text → Text
unfolding clean with_slashes
path_join elems = cleaned (without_empty elems)

abbrev last_of : Text → List Text → Text
last_of p [] = p
last_of p (part ∷ parts) = last_of (if part == [] then p else part) parts

-- `filepath.Base`: the last element that is not empty.
unfoldable pub base_name : Text → Text
unfolding split_path
base_name p =
    let last = last_of [] (split_path p) in
    if p == [] then dot else if last == [] then slash ∷ [] else last

pub has_prefix-append : (p s : Text) → has_prefix (p ++ s) p ≡ true
unfolding has_prefix
has_prefix-append [] [] = refl
has_prefix-append [] (c ∷ s) = refl
has_prefix-append (c ∷ p) s = rw (==-refl c, has_prefix-append p s) refl

pub has_prefix_refl : (p : Text) → has_prefix p p ≡ true
unfolding has_prefix
has_prefix_refl [] = refl
has_prefix_refl (c ∷ p) = rw (==-refl c, has_prefix_refl p) refl

-- What has a prefix is the prefix and the rest.
pub has_prefix-split : (s p : Text) → has_prefix s p ≡ true → s ≡ p ++ drop (length p) s
unfolding has_prefix
has_prefix-split s [] h = refl
has_prefix-split [] (c ∷ p) h = cc
has_prefix-split (b ∷ s) (c ∷ p) h = ground (arith, has_prefix-split s p, eq-of-== b c)

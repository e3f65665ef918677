-- ===== src/Fshash/State.antt =====
-- `Hash` of lib/fshash/hash.go.
use repeatr.Base.{
  ℕ, suc, Bool, true, false, Text, str, Option, none, some, List, [], ◌∷◌, ◌++◌, ◌==◌, nat_eq,
  length, get_elem?, if◌then◌else◌, ◌⊎◌, inl, inr, not,
}
use repeatr.Treewalk.{Run, returned, panicked, Answer, ok, WalkFunc, walk}
use repeatr.Fs.{Item, map_start, text_item, bytes_item, array_start, array_break, marshal}
use repeatr.Fshash.{
  Record, is_dir_record, Panic, index_range, stacks_not_empty, visited_other, iterator, next_line,
}

-- Where a child's hash goes: the last answer, or the hasher of the directory round it.
pub data Upsub : Type 0 where
  set_answer : Upsub
  into : ℕ → Upsub

-- The variables that the visits close over, and `that`, the last line walked. The top of each stack
-- is first; `next_hasher` is the next address, and `written` what was written to each.
pub record Hashing : Type 0 where
  pub that : ℕ
  pub visit_count : ℕ
  pub next_hasher : ℕ
  pub written : ℕ → List Item
  pub upsubs : List Upsub
  pub hashers : List ℕ
  pub final_answer : Option Text

abbrev pub no_stack : List Upsub
no_stack = []

-- The state before the walk.
abbrev pub primed : Hashing
primed = record {
  that = 0;
  visit_count = 0;
  next_hasher = 0;
  written = λ h. [];
  upsubs = set_answer ∷ [];
  hashers = [];
  final_answer = none;
}

-- What is written first for every node.
abbrev pub opening : Record → List Item
opening r = map_start 2 ∷ text_item (str "m") ∷ marshal r.metadata

abbrev pub dir_opening : Record → List Item
dir_opening r = opening r ++ (text_item (str "l") ∷ array_start ∷ [])

abbrev pub file_items : Record → List Item
file_items r = opening r ++ (text_item (str "h") ∷ bytes_item r.content_hash ∷ [])

abbrev pub write : ℕ → List Item → (ℕ → List Item) → ℕ → List Item
write h items written k = if h == k then written k ++ items else written k

-- A new hasher, and what is written to it first.
abbrev pub fresh : ℕ → List Item → (ℕ → List Item) → ℕ → List Item
fresh h items written k = if h == k then items else written k

abbrev pub stepped_to : Panic ⊎ Option ℕ → Hashing → Run Panic Hashing (Option ℕ)
stepped_to (inl p) s = panicked p
stepped_to (inr none) s = returned none s
stepped_to (inr (some next)) s = returned (some next) (record s { that = next })

-- `NextChild` on the state.
unfoldable pub next_child : List Record → ℕ → Hashing → Run Panic Hashing (Option ℕ)
unfolding next_line
next_child lines this s = stepped_to (next_line lines this s.that) s

-- `preVisit`, of a directory.
abbrev pub open_dir : Record → Hashing → Hashing
open_dir r s = record s {
  visit_count = suc s.visit_count;
  next_hasher = suc s.next_hasher;
  written = fresh s.next_hasher (dir_opening r) s.written;
  upsubs = into s.next_hasher ∷ s.upsubs;
  hashers = s.next_hasher ∷ s.hashers;
}

-- `preVisit`, of anything else, before its hash is handed up.
abbrev pub open_file : Record → Hashing → Hashing
open_file r s = record s {
  visit_count = suc s.visit_count;
  next_hasher = suc s.next_hasher;
  written = fresh s.next_hasher (file_items r) s.written;
}

module _ {E : Type 0} (digest : List Item → Text) (lines : List Record) where
  -- `upsubs.Peek()(x)`
  abbrev pub upsub : List Upsub → Text → Hashing → Run Panic Hashing (Answer E)
  upsub [] x s = panicked index_range
  upsub (set_answer ∷ rest) x s = returned ok (record s { final_answer = some x })
  upsub (into h ∷ rest) x s =
      returned ok (record s { written = write h (bytes_item x ∷ []) s.written })

  abbrev pub pre_record : Bool → Record → Hashing → Run Panic Hashing (Answer E)
  pre_record true r s = returned ok (open_dir r s)
  pre_record false r s =
      upsub s.upsubs (digest ((open_file r s).written s.next_hasher)) (open_file r s)

  -- `preVisit`
  unfoldable pub pre_visit : WalkFunc ℕ Panic Hashing E
  pre_visit i s = elim (get_elem? lines i) [
    | none ↦ panicked index_range
    | some r ↦ pre_record (is_dir_record r) r s
  ]

  abbrev pub pop_upsub : List Upsub → Text → Hashing → Run Panic Hashing (Answer E)
  pop_upsub [] x s = panicked index_range
  pop_upsub (u ∷ rest) x s = upsub rest x (record s { upsubs = rest })

  abbrev pub close_dir : List ℕ → Hashing → Run Panic Hashing (Answer E)
  close_dir [] s = panicked index_range
  close_dir (h ∷ rest) s =
      let closed = write h (array_break ∷ []) s.written in
      pop_upsub s.upsubs (digest (closed h)) (record s { hashers = rest; written = closed })

  abbrev pub post_record : Bool → Hashing → Run Panic Hashing (Answer E)
  post_record true s = close_dir s.hashers s
  post_record false s = returned ok s

  -- `postVisit`
  unfoldable pub post_visit : WalkFunc ℕ Panic Hashing E
  post_visit i s = elim (get_elem? lines i) [
    | none ↦ panicked index_range
    | some r ↦ post_record (is_dir_record r) s
  ]

-- The checks after the walk, on the stack without its last entry.
abbrev pub checked : ℕ → List Upsub → Hashing → Panic ⊎ Option Text
checked n [] s = inl index_range
checked n (u ∷ v ∷ rest) s = inl stacks_not_empty
checked n (u ∷ []) s =
    if not (length s.hashers == 0)
    then inl stacks_not_empty
    else if s.visit_count == n
    then inr s.final_answer
    else inl visited_other

abbrev pub answered_walk : ℕ → Option (Run Panic Hashing (Option ⊥)) → Option (Panic ⊎ Option Text)
answered_walk n none = none
answered_walk n (some (panicked p)) = some (inl p)
answered_walk n (some (returned err s)) = some (checked n s.upsubs s)

-- The walk of the lines from the first, on enough fuel; the visits return no error.
unfoldable pub walk_lines : (List Item → Text) → List Record → Option (Run Panic Hashing (Option ⊥))
unfolding walk pre_visit post_visit next_child
walk_lines digest lines =
    walk (next_child lines) (some (pre_visit digest lines)) (some (post_visit digest lines))
      (suc (length lines)) 0 primed

-- `Hash`
unfoldable pub hash_bucket : (List Item → Text) → List Record → Option (Panic ⊎ Option Text)
unfolding walk_lines iterator
hash_bucket digest lines =
    let sorted = iterator lines in answered_walk (length sorted) (walk_lines digest sorted)

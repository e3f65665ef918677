-- ===== src/Fshash/Refinement.antt =====
-- `Hash` against its description on trees: it always ends, its own checks never fail, and its answer
-- is the hash of the tree whose preorder the sorted lines are.
use repeatr.Base.{
  ℕ, zero, suc, ◌≤◌, ◌≡◌, ◌≢◌, refl, sym, ap, subst, ◌∙◌, Bool, true, Text, Option, none, some,
  List, [], ◌∷◌, ◌++◌, length, get_elem?, drop, arith, ◌⊎◌, inl, inr, Bool-cases, ◌==◌, text_eq,
  nat_eq, eq-of-==, ==-refl, Text-IsSet,
}
use repeatr.Base.Sort.{sort_by, sort_by-perm, sort_by_perm, IsKeyed}
use repeatr.Base.Paths.{has_prefix, has_prefix-append, has_prefix_refl, dot, clean}
use repeatr.Treewalk.{Run, returned, panicked}
use repeatr.Treewalk.Rule.{Returning, Finishing, Walked, walk-keeps}
use repeatr.Fs.{Item, Header, type_dir}
use repeatr.Fshash.{
  Record, name_of, is_dir_record, Panic, invalid_parameter, record_line, here, normalize,
  default_root, rooted, iterator,
}
use repeatr.Fshash.State.{
  set_answer, Hashing, primed, next_child, pre_visit, post_visit, checked, answered_walk,
  walk_lines, hash_bucket,
}
use repeatr.Fshash.Tree.{Forest, preorder, IsTreeOf, tree_hashes, handed}
use repeatr.Fshash.Growth.{last_answer}
use repeatr.Fshash.Span.{IsInputPanic, get_elem?-none, Stop, Done, contract}
use repeatr.Fshash.Visits.{pre_visit-keeps, post_visit-keeps}
use repeatr.Fshash.Children.{next_child-keeps}
use mathlib.Core.List.{
  Mem, mem-cons_self, mem-cons_of_mem, eq-or-mem_of_mem-cons, append-nil, not-mem-nil,
}
use mathlib.Core.Option.{some-injective}
use mathlib.Core.Logic.Or
use mathlib.Core.Bool.{Bool-set}
use mathlib.Core.List.Permᴰ.{Permᴰ}
use mathlib.Core.List.Permᴰ

-- What a bucket's lines satisfy: each name is its own normal form.
unfoldable pub IsNormal : List Record → Type 0
IsNormal [] = Unit
IsNormal (r ∷ rs) = (name_of r ≡ normalize (name_of r) (is_dir_record r)) × IsNormal rs

normal_of_Mem :
    (lines : List Record)
    → IsNormal lines
    → (r : Record) → Mem r lines
    → name_of r ≡ normalize (name_of r) (is_dir_record r)
unfolding IsNormal
normal_of_Mem [] n r m = absurd (not-mem-nil m)
normal_of_Mem (x ∷ xs) (e, n) r m =
    Or.elim (Text-IsSet (name_of r) (normalize (name_of r) (is_dir_record r)))
      (eq-or-mem_of_mem-cons m) (λ f. rw f e) (normal_of_Mem xs n r)

IsNormal-append :
    (lines : List Record) (r : Record)
    → IsNormal lines
    → IsNormal (r ∷ [])
    → IsNormal (lines ++ (r ∷ []))
unfolding IsNormal
IsNormal-append [] r n e = e
IsNormal-append (x ∷ xs) r (f, n) e = (f, IsNormal-append xs r n e)

abbrev AllHere : List Record → Type 0
AllHere lines = (r : Record) → Mem r lines → has_prefix (name_of r) here ≡ true

-- An answer is the hash of the tree of the sorted lines, and a panic is one that the lines bring about.
abbrev pub IsTreeHash : (List Item → Text) → List Record → Panic ⊎ Option Text → Type 0
IsTreeHash digest sorted (inl p) = IsInputPanic sorted p
IsTreeHash digest sorted (inr a) =
    (root : Record) × (kids : Forest) × IsTreeOf sorted root kids
    × (a ≡ last_answer none (handed digest root (tree_hashes digest kids)))

-- Every normal form begins with `./`.
pub normalize-here : (p : Text) (is_dir : Bool) → has_prefix (normalize p is_dir) here ≡ true
unfolding normalize
normalize-here p is_dir = elim (Bool-cases (clean p == dot)) [
  | inl a ↦ rw a (has_prefix_refl here)
  | inr a ↦ rw a (has_prefix-append here _)
]

default_root-here : (sorted : List Record) → AllHere sorted → AllHere (default_root ∷ sorted)
default_root-here sorted h r m =
    Or.elim (Bool-set (has_prefix (name_of r) here) true) (eq-or-mem_of_mem-cons m)
      (λ e. rw e (has_prefix_refl here)) (h r)

rooted-here :
    (sorted : List Record)
    → AllHere sorted
    → (root : Record) × (rest : List Record) × (rooted sorted ≡ root ∷ rest)
      × (name_of root ≡ here)
      × AllHere (rooted sorted)
rooted-here [] h = (default_root, [], refl, refl, default_root-here [] h)
rooted-here (r ∷ rs) h = elim (Bool-cases (name_of r == here)) [
  | inl a ↦ (r, rs, rw a refl, eq-of-== (name_of r) here a, rw a h)
  | inr a ↦ (default_root, r ∷ rs, rw a refl, refl, rw a (default_root-here (r ∷ rs) h))
]

iterator-here :
    (lines : List Record)
    → IsNormal lines
    → (root : Record) × (rest : List Record) × (iterator lines ≡ root ∷ rest)
      × (name_of root ≡ here)
      × AllHere (iterator lines)
unfolding iterator
iterator-here lines n = rooted-here (sort_by name_of lines) (λ r m.
    let e = normal_of_Mem lines n r (Permᴰ.mem (Permᴰ.symm (sort_by-perm name_of lines)) m) in
    rw e (normalize-here (name_of r) (is_dir_record r)))

get_elem?-Mem : (xs : List Record) (i : ℕ) (r : Record) → get_elem? xs i ≡ some r → Mem r xs
get_elem?-Mem [] i r e = cc
get_elem?-Mem (x ∷ xs) zero r e = rw (some-injective x r e) mem-cons_self
get_elem?-Mem (x ∷ xs) (suc i) r e = mem-cons_of_mem x (get_elem?-Mem xs i r e)

drop_all : (xs : List Record) (n : ℕ) → drop n xs ≡ [] → length xs ≤ n
drop_all [] n e = omega arith
drop_all (x ∷ xs) zero e = cc
drop_all (x ∷ xs) (suc n) e = omega (arith, drop_all xs n e)

checked_lem :
    (n : ℕ) (t : Hashing)
    → t.upsubs ≡ set_answer ∷ []
    → t.hashers ≡ []
    → t.visit_count ≡ n
    → checked n t.upsubs t ≡ inr t.final_answer
unfolding nat_eq
checked_lem n t e f g = rw (e, f, g, ==-refl n) refl

module _ (digest : List Item → Text) (lines : List Record) where
  -- Where all names begin with the root's, the walk stops at the end.
  ending_of :
      (own : Record) (t : Hashing)
      → AllHere lines
      → name_of own ≡ here
      → Stop digest lines own t
      → drop (suc t.that) lines ≡ []
  ending_of own t h e (inl n) = get_elem?-none lines (suc t.that) n
  ending_of own t h e (inr (r, line, f)) =
      let yes : has_prefix (name_of r) (name_of own) ≡ true =
        rw e (h r (get_elem?-Mem lines (suc t.that) r line)) in
      absurd (ground arith)

  answer_at_end :
      (root : Record) (rest : List Record) (t : Hashing)
      → lines ≡ root ∷ rest
      → name_of root ≡ here
      → AllHere lines
      → Done digest lines 0 primed t
      → IsTreeHash digest lines (checked (length lines) t.upsubs t)
  answer_at_end root rest t e n h (own, kids, span, g, at, stop) =
      let ended =
        ending_of own t h
          (ap name_of (some-injective own root (sym span.line ∙ ap (λ l. get_elem? l 0) e)) ∙ n)
          stop in
      let count : suc t.that ≡ length lines =
        omega (arith, span.bounded, drop_all lines (suc t.that) ended) in
      subst (IsTreeHash digest lines)
        (sym (checked_lem (length lines) t g.same_upsubs g.same_hashers (span.counted ∙ count)))
        (
          own,
          kids,
          (span.layout ∙ ap (λ l. own ∷ l) (rw ended (append-nil (preorder kids))), span.nested),
          g.answered,
        )

  walk_lines-keeps :
      (root : Record) (rest : List Record)
      → lines ≡ root ∷ rest
      → Finishing
          (IsInputPanic lines)
          (Walked (contract digest lines) 0 primed)
          (walk_lines digest lines)
  unfolding walk_lines
  walk_lines-keeps root rest e =
      walk-keeps (contract digest lines) (IsInputPanic lines) (next_child lines)
        (some (pre_visit digest lines)) (some (post_visit digest lines))
        (pre_visit-keeps digest lines) (next_child-keeps digest lines)
        (post_visit-keeps digest lines) (suc (length lines)) 0 primed
        (refl, rw e (omega arith), refl, (set_answer, [], refl)) (omega arith)

  walk-answer :
      (root : Record) (rest : List Record) (r : Option (Run Panic Hashing (Option ⊥)))
      → lines ≡ root ∷ rest
      → name_of root ≡ here
      → AllHere lines
      → Finishing (IsInputPanic lines) (Walked (contract digest lines) 0 primed) r
      → (outcome : Panic ⊎ Option Text) × (answered_walk (length lines) r ≡ some outcome)
        × IsTreeHash digest lines outcome
  unfolding Finishing Returning Walked
  walk-answer root rest none e n h f = absurd f
  walk-answer root rest (some (panicked p)) e n h f = (inl p, refl, f)
  walk-answer root rest (some (returned none t)) e n h f =
      (checked (length lines) t.upsubs t, refl, answer_at_end root rest t e n h f)
  walk-answer root rest (some (returned (some x) t)) e n h f = absurd x

-- Where each recorded name is its own normal form, `Hash` ends within the fuel of one level for each line, in one of three ways. The sorted lines,
-- with the default root where there was none, are the preorder of a tree in which each name is one element longer
-- than its parent's and no tree that follows another is below it, and the answer is what that tree's root hands up last. Or it panics for a
-- missing tree, and the lines are no such tree. Or it panics with a slice out of bounds, and two lines have one name.
pub hash_bucket-IsTreeHash :
    (digest : List Item → Text) (lines : List Record)
    → IsNormal lines
    → (outcome : Panic ⊎ Option Text) × (hash_bucket digest lines ≡ some outcome)
      × IsTreeHash digest (iterator lines) outcome
unfolding hash_bucket
hash_bucket-IsTreeHash digest lines n =
    let (root, rest, e, here_root, h) = iterator-here lines n in
    walk-answer digest (iterator lines) root rest (walk_lines digest (iterator lines)) e here_root h
      (walk_lines-keeps digest (iterator lines) root rest e)

-- The order in which files were recorded does not change what `Hash` does, if no two different records have
-- the same name.
pub hash_bucket_perm :
    (digest : List Item → Text) (lines reordered : List Record)
    → Permᴰ lines reordered
    → IsKeyed name_of lines
    → hash_bucket digest lines ≡ hash_bucket digest reordered
unfolding hash_bucket iterator
hash_bucket_perm digest lines reordered p k =
    ap (λ sorted. answered_walk (length (rooted sorted)) (walk_lines digest (rooted sorted)))
      (sort_by_perm name_of lines reordered p k)

-- From lines whose names are their own normal forms, `Record` either panics and the metadata's name is not its normal form, or
-- the new line is the last and every name is its own normal form again.
pub record_line-IsNormal :
    (metadata : Header) (content : Text) (lines : List Record)
    → IsNormal lines
    → ((record_line metadata content lines ≡ inl invalid_parameter)
        × (metadata.name ≢ normalize metadata.name (metadata.typeflag == type_dir)))
      ⊎ ((record_line metadata content lines
            ≡ inr (lines ++ (record { metadata = metadata; content_hash = content } ∷ [])))
          × IsNormal (lines ++ (record { metadata = metadata; content_hash = content } ∷ [])))
unfolding record_line
record_line-IsNormal metadata content lines n =
    let added : Record = record { metadata = metadata; content_hash = content } in
    elim (Bool-cases (metadata.name == normalize metadata.name (metadata.typeflag == type_dir))) [
      | inl a ↦ inr (
        rw a refl,
        IsNormal-append lines added n (unfold IsNormal in (eq-of-== metadata.name _ a, tt)),
      )
      | inr a ↦ inl (rw a refl, λ e. ground (arith, a, e))
    ]

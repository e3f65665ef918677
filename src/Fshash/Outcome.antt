-- ===== src/Fshash/Outcome.antt =====
-- What `Hash` answers where the recorded lines are a tree.
use repeatr.Base.{
  ◌≡◌, refl, ap, ◌∙◌, Text, Option, none, some, List, inl, inr, ◌⊎◌, false, true, [], ◌∷◌, ◌++◌,
  map, contains, text_eq, ==-refl, arith,
}
use repeatr.Fs.{Item}
use repeatr.Fshash.{Record, name_of, Panic, iterator}
use repeatr.Fshash.State.{hash_bucket}
use repeatr.Fshash.Tree.{Forest, tree_hashes, handed, IsTreeOf}
use repeatr.Fshash.Growth.{last_answer}
use repeatr.Fshash.Span.{IsInputPanic, IsRepeated}
use repeatr.Fshash.Unique.{IsTreeOf-unique}
use repeatr.Fshash.Refinement.{IsNormal, IsTreeHash, hash_bucket-IsTreeHash}

-- Each name is new.
abbrev pub AllNew : List Record → Type 0
AllNew [] = Unit
AllNew (r ∷ rs) = (contains (map name_of rs) (name_of r) ≡ false) × AllNew rs

contains-again :
    (others : List Record) (again : Record) (after : List Record)
    → contains (map name_of (others ++ (again ∷ after))) (name_of again) ≡ true
contains-again [] again after = rw (==-refl (name_of again)) refl
contains-again (x ∷ others) again after = ground (arith, contains-again others again after)

AllNew-once : (lines : List Record) → AllNew lines → ¬ IsRepeated lines
AllNew-once [] n ([], r, others, again, after, e, same) = cc
AllNew-once [] n (b ∷ before, r, others, again, after, e, same) = cc
AllNew-once (x ∷ xs) (fresh, n) ([], r, others, again, after, e, same) =
    let first : x ≡ r = cc in
    let rest : xs ≡ others ++ (again ∷ after) = cc in
    let twice : contains (map name_of xs) (name_of x) ≡ true =
      rw (rest, first, same) (contains-again others again after) in
    absurd (ground arith)
AllNew-once (x ∷ xs) (fresh, n) (b ∷ before, r, others, again, after, e, same) =
    let rest : xs ≡ before ++ (r ∷ (others ++ (again ∷ after))) = cc in
    AllNew-once xs n (before, r, others, again, after, rest, same)

module _ (digest : List Item → Text) where
  answer_of_tree :
      (sorted : List Record) (root : Record) (kids : Forest) (outcome : Panic ⊎ Option Text)
      → IsTreeOf sorted root kids
      → ¬ IsRepeated sorted
      → IsTreeHash digest sorted outcome
      → outcome ≡ inr (last_answer none (handed digest root (tree_hashes digest kids)))
  unfolding IsInputPanic
  answer_of_tree sorted root kids (inl p) t once (inl (e, treeless)) =
      absurd (treeless (root, kids, t))
  answer_of_tree sorted root kids (inl p) t once (inr (e, twice)) = absurd (once twice)
  answer_of_tree sorted root kids (inr a) t once (other, more, u, e) =
      let (same, all) = IsTreeOf-unique sorted root other kids more t u in rw (same, all, e) refl

  -- Where each recorded name is its own normal form, and the sorted lines, with the default root where there was none, have no name twice and are the
  -- preorder of a tree in which each name is one element longer than its parent's and no tree that follows another is
  -- below it: `Hash` does not panic, and its answer is what the root of that tree hands up last.
  pub hash_bucket-answer :
      (lines : List Record) (root : Record) (kids : Forest)
      → IsNormal lines
      → IsTreeOf (iterator lines) root kids
      → AllNew (iterator lines)
      → hash_bucket digest lines
        ≡ some (inr (last_answer none (handed digest root (tree_hashes digest kids))))
  hash_bucket-answer lines root kids n t once =
      let (outcome, e, h) = hash_bucket-IsTreeHash digest lines n in
      e
      ∙ ap some (
          answer_of_tree (iterator lines) root kids outcome t (AllNew-once (iterator lines) once) h)

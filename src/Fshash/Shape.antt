-- ===== src/Fshash/Shape.antt =====
-- Which record of a tree in preorder stands above which, and why no tree has a record whose parent is missing.
use repeatr.Base.{
  ℕ, ◌-◌, ◌<◌, ◌≤◌, ◌≡◌, refl, sym, ap, subst, ◌∙◌, true, false, ◌||◌, Text, List, [], ◌∷◌, ◌++◌,
  length, drop, arith, ◌⊎◌, inl, inr, nat_eq, contains, length-append, take-append_exact,
  drop-append_exact,
}
use repeatr.Base.Paths.{has_prefix, has_prefix-append, has_prefix_refl, has_prefix-split, slash}
use repeatr.Fshash.{Record, name_of, between}
use repeatr.Fshash.Tree.{Forest, bare_ground, tree, preorder, IsStep, IsNested, IsPast, IsTreeOf}
use mathlib.Core.List.{append_assoc, append-nil}

pub has_prefix_trans :
    (a b c : Text) → has_prefix a b ≡ true → has_prefix b c ≡ true → has_prefix a c ≡ true
has_prefix_trans a b c h k =
    rw (has_prefix-split a b h, has_prefix-split b c k) (rw append_assoc (has_prefix-append c _))

-- Records below a name.
abbrev pub AllBelow : Text → List Record → Type 0
AllBelow name [] = Unit
AllBelow name (r ∷ rs) = (has_prefix (name_of r) name ≡ true) × AllBelow name rs

AllBelow-append :
    (name : Text) (rs qs : List Record)
    → AllBelow name rs
    → AllBelow name qs
    → AllBelow name (rs ++ qs)
AllBelow-append name [] qs a b = b
AllBelow-append name (r ∷ rs) qs (h, a) b = (h, AllBelow-append name rs qs a b)

AllBelow_trans :
    (name upper : Text) (rs : List Record)
    → has_prefix name upper ≡ true
    → AllBelow name rs
    → AllBelow upper rs
AllBelow_trans name upper [] h a = tt
AllBelow_trans name upper (r ∷ rs) h (k, a) =
    (has_prefix_trans (name_of r) name upper k h, AllBelow_trans name upper rs h a)

pub IsStep-below : (name parent : Text) → IsStep name parent → has_prefix name parent ≡ true
IsStep-below name parent (e, c, same, s) = rw same (has_prefix-append parent _)

AllBelow-preorder : (name : Text) (f : Forest) → IsNested name f → AllBelow name (preorder f)
unfolding preorder
AllBelow-preorder name bare_ground n = tt
AllBelow-preorder name (tree r kids rest) (s, k, a, n) = (
  IsStep-below (name_of r) name s,
  AllBelow-append name (preorder kids) (preorder rest)
      (AllBelow_trans (name_of r) name (preorder kids) (IsStep-below (name_of r) name s)
        (AllBelow-preorder (name_of r) kids k))
      (AllBelow-preorder name rest n),
)

-- Where two lists make one with an element in it, the element is in one of them.
abbrev Split : List Record → List Record → List Record → Record → List Record → Type 0
Split xs ys before x after =
    ((left : List Record) × (xs ≡ before ++ (x ∷ left)) × (after ≡ left ++ ys))
    ⊎ ((right : List Record) × (before ≡ xs ++ right) × (ys ≡ right ++ (x ∷ after)))

append-Split :
    (xs ys before : List Record) (x : Record) (after : List Record)
    → xs ++ ys ≡ before ++ (x ∷ after)
    → Split xs ys before x after
append-Split [] ys before x after e = inr (before, refl, e)
append-Split (z ∷ xs) ys [] x after e = inl (xs, cc, cc)
append-Split (z ∷ xs) ys (b ∷ before) x after e =
    let first : z ≡ b = cc in
    elim (append-Split xs ys before x after cc) [
      | inl (left, f, g) ↦ inl (left, rw (first, f) refl, g)
      | inr (right, f, g) ↦ inr (right, rw (first, f) refl, g)
    ]

-- A record's parent is before it, and all between them are below the parent.
abbrev pub IsParented : Record → List Record → Type 0
IsParented x before =
    (above : List Record) × (p : Record) × (between_them : List Record) × (before
      ≡ above ++ (p ∷ between_them))
    × IsStep (name_of x) (name_of p)
    × AllBelow (name_of p) between_them

IsParented-append :
    (x : Record) (more before : List Record) → IsParented x before → IsParented x (more ++ before)
IsParented-append x more before (above, p, rest, e, s, a) =
    (more ++ above, p, rest, rw (e, append_assoc) refl, s, a)

forest-parent :
    (name : Text) (f : Forest) (before : List Record) (x : Record) (after : List Record)
    → IsNested name f
    → preorder f ≡ before ++ (x ∷ after)
    → (IsStep (name_of x) name × AllBelow name before) ⊎ IsParented x before
unfolding preorder
forest-parent name bare_ground [] x after n e = cc
forest-parent name bare_ground (b ∷ before) x after n e = cc
forest-parent name (tree r kids rest) [] x after (s, k, a, n) e =
    let same : r ≡ x = cc in inl (rw (← same) s, tt)
forest-parent name (tree r kids rest) (b ∷ before) x after (s, k, a, n) e =
    let same : r ≡ b = cc in
    let below_name : has_prefix (name_of b) name ≡ true =
      rw (← same) (IsStep-below (name_of r) name s) in
    elim (append-Split (preorder kids) (preorder rest) before x after cc) [
      | inl (left, f, g) ↦ elim (forest-parent (name_of r) kids before x left k f) [
        | inl (step, all) ↦ inr ([], b, before, refl, rw (← same) step, rw (← same) all)
        | inr parented ↦ inr (IsParented-append x (b ∷ []) before parented)
      ]
      | inr (right, f, g) ↦ elim (forest-parent name rest right x after n g) [
        | inl (step, all) ↦ inl (
          step,
          (
            below_name,
            rw f (
                AllBelow-append name (preorder kids) right
                  (AllBelow_trans (name_of r) name (preorder kids) (IsStep-below (name_of r) name s)
                    (AllBelow-preorder (name_of r) kids k))
                  all),
          ),
        )
        | inr parented ↦ inr (rw f (IsParented-append x (b ∷ preorder kids) right parented))
      ]
    ]

-- In a tree every record but the root has its parent before it.
tree-parent :
    (lines : List Record) (root : Record) (kids : Forest) (b : Record) (before : List Record)
    (x : Record) (after : List Record)
    → IsTreeOf lines root kids
    → lines ≡ (b ∷ before) ++ (x ∷ after)
    → IsParented x (b ∷ before)
tree-parent lines root kids b before x after (e, n) f =
    let same : root ≡ b = cc in
    elim (forest-parent (name_of root) kids before x after n cc) [
      | inl (step, all) ↦ ([], b, before, refl, rw (← same) step, rw (← same) all)
      | inr parented ↦ IsParented-append x (b ∷ []) before parented
    ]

AllBelow-last :
    (name : Text) (rs : List Record) (r : Record) (qs : List Record)
    → AllBelow name (rs ++ (r ∷ qs))
    → has_prefix (name_of r) name ≡ true
AllBelow-last name [] r qs (h, a) = h
AllBelow-last name (x ∷ rs) r qs (h, a) = AllBelow-last name rs r qs a

below_of_Split :
    (name : Text) (rs before : List Record) (x : Record) (after : List Record)
    → rs ≡ before ++ (x ∷ after)
    → AllBelow name rs
    → has_prefix (name_of x) name ≡ true
below_of_Split name rs before x after e a =
    AllBelow-last name before x after (subst (AllBelow name) e a)

-- A name past a forest has no parent in it after which all are below the parent.
no_parent_past :
    (name next : Text) (f : Forest) (before : List Record) (p : Record) (after : List Record)
    → IsNested name f
    → IsPast next f
    → preorder f ≡ before ++ (p ∷ after)
    → AllBelow (name_of p) after
    → has_prefix next (name_of p) ≡ true
    → ⊥
unfolding preorder
no_parent_past name next bare_ground [] p after n past e a h = cc
no_parent_past name next bare_ground (b ∷ before) p after n past e a h = cc
no_parent_past name next (tree r kids bare_ground) before p after (s, k, t, n) past e a h =
    let upper : has_prefix (name_of p) (name_of r) ≡ true =
      below_of_Split (name_of r) (r ∷ preorder kids ++ []) before p after e (
        has_prefix_refl (name_of r),
        AllBelow-append (name_of r) (preorder kids) [] (AllBelow-preorder (name_of r) kids k) tt,
      ) in
    let again = has_prefix_trans next (name_of p) (name_of r) h upper in absurd (ground arith)
no_parent_past name next (tree r kids (tree q more rest)) before p after (s, k, t, n) past e a h =
    elim (append-Split (r ∷ preorder kids) (q ∷ (preorder more ++ preorder rest)) before p after
      e) [
        | inl (left, f, g) ↦
            let upper : has_prefix (name_of p) (name_of r) ≡ true =
              below_of_Split (name_of r) (r ∷ preorder kids) before p left f
                (has_prefix_refl (name_of r), AllBelow-preorder (name_of r) kids k) in
            let lower : has_prefix (name_of q) (name_of p) ≡ true =
              AllBelow-last (name_of p) left q (preorder more ++ preorder rest)
                (subst (AllBelow (name_of p)) g a) in
            let again = has_prefix_trans (name_of q) (name_of p) (name_of r) lower upper in
            absurd (ground arith)
        | inr (right, f, g) ↦ no_parent_past name next (tree q more rest) right p after n past g a h
      ]

with_last : (c : ℕ) (s : Text) → (w : Text) × (d : ℕ) × (c ∷ s ≡ w ++ (d ∷ []))
with_last c [] = ([], c, refl)
with_last c (b ∷ s) = let (w, d, e) = with_last b s in (c ∷ w, d, ap (λ t. c ∷ t) e)

snoc_left : (w v : Text) (c d : ℕ) → w ++ (c ∷ []) ≡ v ++ (d ∷ []) → w ≡ v
snoc_left [] [] c d e = refl
snoc_left [] (y ∷ []) c d e = cc
snoc_left [] (y ∷ z ∷ v) c d e = cc
snoc_left (x ∷ []) [] c d e = cc
snoc_left (x ∷ z ∷ w) [] c d e = cc
snoc_left (x ∷ w) (y ∷ v) c d e = let first : x ≡ y = cc in rw (first, snoc_left w v c d cc) refl

contains-append : (w v : Text) (c : ℕ) → contains (w ++ v) c ≡ contains w c || contains v c
contains-append [] v c = refl
contains-append (x ∷ w) v c = ground (arith, contains-append w v c)

-- What a longer name adds to a name, and what `NextChild` looks at.
pub between-added :
    (name parent : Text)
    → has_prefix name parent ≡ true
    → length parent < length name
    → (w : Text) × (c : ℕ) × (name ≡ parent ++ (w ++ (c ∷ []))) × (between name parent ≡ w)
between-added name parent h l = of (drop (length parent) name) (has_prefix-split name parent h)
  where
    of :
        (s : Text)
        → name ≡ parent ++ s
        → (w : Text) × (c : ℕ) × (name ≡ parent ++ (w ++ (c ∷ []))) × (between name parent ≡ w)
    of [] e = absurd (omega (arith, l, ap length e, length-append parent []))
    of (d ∷ s) e =
        let (w, c, same) = with_last d s in
        let all : name ≡ parent ++ (w ++ (c ∷ [])) = rw (← same) e in
        let rest : drop (length parent) name ≡ w ++ (c ∷ []) =
          rw all (drop-append_exact (length parent) parent _ refl) in
        let count : length name - 1 - length parent ≡ length w =
          omega (
            arith,
            ap length all,
            length-append parent (w ++ (c ∷ [])),
            length-append w (c ∷ []),
          ) in
        (w, c, all, rw (count, rest) (take-append_exact (length w) w (c ∷ []) refl))

-- One element more than a name is at most one more than what is below it.
step_slashless :
    (next own p w : Text) (c : ℕ)
    → next ≡ own ++ (w ++ (c ∷ []))
    → IsStep next p
    → has_prefix own p ≡ true
    → contains w slash ≡ false
step_slashless next own p w c e (v, d, f, slashless) h =
    let s : Text = drop (length p) own in
    let all : p ++ (v ++ (d ∷ [])) ≡ p ++ ((s ++ w) ++ (c ∷ [])) =
      sym f
      ∙ e
      ∙ ap (λ t. t ++ (w ++ (c ∷ []))) (has_prefix-split own p h)
      ∙ append_assoc p s (w ++ (c ∷ []))
      ∙ ap (λ t. p ++ t) (sym (append_assoc s w (c ∷ []))) in
    let rest : v ++ (d ∷ []) ≡ (s ++ w) ++ (c ∷ []) =
      sym (drop-append_exact (length p) p _ refl)
      ∙ ap (drop (length p)) all
      ∙ drop-append_exact (length p) p _ refl in
    let same : v ≡ s ++ w = snoc_left v (s ++ w) d c rest in
    let none_in : contains (s ++ w) slash ≡ false = rw (← same) slashless in
    ground (arith, contains-append s w slash, none_in)

module _ (own next : Record) (kids : Forest)
    (below : has_prefix (name_of next) (name_of own) ≡ true)
    (longer : length (name_of own) < length (name_of next))
    (slashed : contains (between (name_of next) (name_of own)) slash ≡ true) where
  no_step_above : (p : Text) → IsStep (name_of next) p → has_prefix (name_of own) p ≡ true → ⊥
  no_step_above p step h =
      let (w, c, e, same) = between-added (name_of next) (name_of own) below longer in
      let slashless = step_slashless (name_of next) (name_of own) p w c e step h in
      let both : contains w slash ≡ true = rw (← same) slashed in absurd (ground arith)

  no_step_from :
      (right : List Record) (p : Record) (rest : List Record)
      → IsNested (name_of own) kids
      → IsPast (name_of next) kids
      → own ∷ preorder kids ≡ right ++ (p ∷ rest)
      → IsStep (name_of next) (name_of p)
      → AllBelow (name_of p) rest
      → ⊥
  no_step_from [] p rest n past e step all =
      let same : own ≡ p = cc in
      no_step_above (name_of p) step (rw same (has_prefix_refl (name_of p)))
  no_step_from (o ∷ right) p rest n past e step all =
      let parts : preorder kids ≡ right ++ (p ∷ rest) = cc in
      no_parent_past (name_of own) (name_of next) kids right p rest n past parts all
        (IsStep-below (name_of next) (name_of p) step)

  no_parent :
      (above : List Record)
      → IsNested (name_of own) kids
      → IsPast (name_of next) kids
      → IsParented next (above ++ (own ∷ preorder kids))
      → ⊥
  no_parent above n past (u, p, rest, e, step, all) =
      elim (append-Split above (own ∷ preorder kids) u p rest e) [
        | inl (left, f, g) ↦ no_step_above (name_of p) step (
            AllBelow-last (name_of p) left own (preorder kids) (subst (AllBelow (name_of p)) g all))
        | inr (right, f, g) ↦ no_step_from right p rest n past g step all
      ]

  -- Where a record is more than one element longer than the last record that it is below, and those between
  -- them are closed, the lines are no tree.
  pub no_tree :
      (lines above after : List Record) (root : Record) (all_kids : Forest)
      → lines ≡ (above ++ (own ∷ preorder kids)) ++ (next ∷ after)
      → IsNested (name_of own) kids
      → IsPast (name_of next) kids
      → IsTreeOf lines root all_kids
      → ⊥
  no_tree lines [] after root all_kids e n past t =
      no_parent [] n past (tree-parent lines root all_kids own (preorder kids) next after t e)
  no_tree lines (b ∷ above) after root all_kids e n past t =
      no_parent (b ∷ above) n past
        (tree-parent lines root all_kids b (above ++ (own ∷ preorder kids)) next after t e)

-- What is below a name and not longer is the name.
pub same_of_prefix :
    (name parent : Text)
    → has_prefix name parent ≡ true
    → length name ≤ length parent
    → name ≡ parent
same_of_prefix name parent h l = of (drop (length parent) name) (has_prefix-split name parent h)
  where
    of : (s : Text) → name ≡ parent ++ s → name ≡ parent
    of [] e = e ∙ append-nil parent
    of (c ∷ s) e = absurd (omega (arith, l, ap length e, length-append parent (c ∷ s)))

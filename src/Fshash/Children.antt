-- ===== src/Fshash/Children.antt =====
-- `NextChild` keeps the invariant of the walk: the lines walked below a child are one more tree.
use repeatr.Base.{
  ℕ, suc, ◌<◌, ◌≡◌, refl, sym, ap, subst, ◌∙◌, Bool, true, false, Text, Option, none, some, List,
  ◌∷◌, ◌++◌, length, get_elem?, take, drop, take-append-drop, arith, ◌⊎◌, inl, inr, Option-cases,
  text_eq, nat_eq, contains,
}
use repeatr.Base.Paths.{has_prefix, has_prefix_refl, slash}
use repeatr.Treewalk.Rule.{Returning, Stepped}
use repeatr.Fs.{Item}
use repeatr.Fshash.{
  Record, name_of, is_dir_record, Panic, missing_tree, slice_bounds, next_line, between,
}
use repeatr.Fshash.State.{into, Hashing, open_dir, file_items, next_child, stepped_to}
use repeatr.Fshash.Tree.{
  Forest, tree, bare_ground, beside, preorder, preorder-beside, IsStep, IsNested-beside, IsPast,
  IsPast-beside, tree_hashes, tree_hashes-beside, handed,
}
use repeatr.Fshash.Growth.{Grown, Grown-trans}
use repeatr.Fshash.Found.{child_at-Found, next_line-last, next_line_lem}
use repeatr.Fshash.Shape.{no_tree}
use repeatr.Fshash.Span.{
  IsInputPanic, drop-get_elem?, get_elem?-lt, get_elem?-some, Ready, Apart, Progress, Span, Inside,
  Stop, Done, contract,
}
use mathlib.Core.Option.{some-injective, none-ne-some}
use mathlib.Core.List.{append_assoc, append-nil}

Grown-that :
    (xs : List Text) (s u : Hashing) (n : ℕ) → Grown xs (record s { that = n }) u → Grown xs s u
Grown-that xs s u n g = record {
  same_upsubs = g.same_upsubs;
  same_hashers = g.same_hashers;
  more_hashers = g.more_hashers;
  contents = g.contents;
  answered = g.answered;
}

module _ (digest : List Item → Text) (lines : List Record) where
  Progress-beside :
      (b : Bool) (own : Record) (kids more : Forest) (s t u : Hashing)
      → Progress digest lines b own kids s t
      → Grown (tree_hashes digest more) t u
      → Progress digest lines b own (beside kids more) s u
  Progress-beside true own kids more s t u p g =
      rw (tree_hashes-beside digest kids more)
        (Grown-trans (tree_hashes digest kids) (tree_hashes digest more) (open_dir own s) t u p g)
  Progress-beside false own kids more s t u p g = rw (tree_hashes-beside digest kids more) (
      Grown-trans (digest (file_items own) ∷ tree_hashes digest kids) (tree_hashes digest more) s t
        u p g)

  Progress-Ready :
      (b : Bool) (own : Record) (kids : Forest) (s t : Hashing)
      → Progress digest lines b own kids s t
      → Ready s
      → Ready t
  Progress-Ready true own kids s t p ready = (into s.next_hasher, s.upsubs, p.same_upsubs)
  Progress-Ready false own kids s t p (u, rest, e) = (u, rest, p.same_upsubs ∙ e)

  longer :
      (own child : Record) (kids below : Forest) (rest : List Record)
      → own ∷ (preorder kids ++ (child ∷ (preorder below ++ rest)))
        ≡ own ∷ (preorder (beside kids (tree child below bare_ground)) ++ rest)
  unfolding preorder
  longer own child kids below rest =
      ap (λ l. own ∷ l)
        (rw (preorder-beside kids (tree child below bare_ground), append-nil, append_assoc) refl)

  Apart-Stop :
      (own : Record) (t : Hashing)
      → Stop digest lines own t
      → get_elem? lines t.that ≡ some own
      → Apart digest lines t
  Apart-Stop own t (inl n) line next last f g e = absurd (none-ne-some next (sym n ∙ f))
  Apart-Stop own t (inr (r, h, other)) line next last f g e =
      let first : last ≡ own = some-injective last own (sym g ∙ line) in
      let second : next ≡ r = some-injective next r (sym f ∙ h) in
      let same : name_of r ≡ name_of own = ap name_of (sym second) ∙ sym e ∙ ap name_of first in
      let yes : has_prefix (name_of r) (name_of own) ≡ true =
        rw same (has_prefix_refl (name_of own)) in
      absurd (ground arith)

  child-Apart :
      (child : Record) (below : Forest) (c : ℕ) (u : Hashing)
      → Span digest lines c child below u
      → Stop digest lines child u
      → Apart digest lines u
  child-Apart child below c u walked stop = elim walked.apart [
    | inl e ↦ Apart-Stop child u stop (rw e walked.line)
    | inr apart ↦ apart
  ]

  Stop-IsPast :
      (child : Record) (kids below : Forest) (u : Hashing)
      → Stop digest lines child u
      → (r : Record) → get_elem? lines (suc u.that) ≡ some r
      → IsPast (name_of r) (beside kids (tree child below bare_ground))
  Stop-IsPast child kids below u (inl n) r line = absurd (none-ne-some r (sym n ∙ line))
  Stop-IsPast child kids below u (inr (q, at, other)) r line =
      let same : q ≡ r = some-injective q r (sym at ∙ line) in
      IsPast-beside (name_of r) kids child below (rw (← same) other)

  -- The walk of a child makes the forest below the node one tree longer.
  Span-child :
      (i : ℕ) (own next child : Record) (kids below : Forest) (t u : Hashing)
      → Span digest lines i own kids t
      → get_elem? lines (suc t.that) ≡ some next
      → IsStep (name_of next) (name_of own)
      → Span digest lines (suc t.that) child below u
      → Stop digest lines child u
      → Span digest lines i own (beside kids (tree child below bare_ground)) u
  Span-child i own next child kids below t u span e step walked stop =
      let same : next ≡ child = some-injective next child (sym e ∙ walked.line) in
      record {
        line = span.line;
        layout =
            span.layout
            ∙ ap (λ l. own ∷ (preorder kids ++ l)) walked.layout
            ∙ longer own child kids below (drop (suc u.that) lines);
        nested =
            IsNested-beside (name_of own) kids child below span.nested
              (rw (← same) (span.past next e)) (rw (← same) step) walked.nested;
        past = Stop-IsPast child kids below u stop;
        counted = walked.counted;
        reached = omega (arith, span.reached, walked.reached);
        bounded = walked.bounded;
        apart = inr (child-Apart child below (suc t.that) u walked stop);
      }

  child-Inside :
      (i : ℕ) (own next : Record) (kids : Forest) (s t u : Hashing)
      → Span digest lines i own kids t
      → Progress digest lines (is_dir_record own) own kids s t
      → Ready s
      → s.that ≡ i
      → get_elem? lines (suc t.that) ≡ some next
      → IsStep (name_of next) (name_of own)
      → Done digest lines (suc t.that) (record t { that = suc t.that }) u
      → Inside digest lines i s u
  unfolding tree_hashes
  child-Inside i own next kids s t u span p ready e line pre (child, below, walked, g, f, stop) = (
    own,
    beside kids (tree child below bare_ground),
    Span-child i own next child kids below t u span line pre walked stop,
    Progress-beside (is_dir_record own) own kids (tree child below bare_ground) s t u p (
        Grown-that (tree_hashes digest (tree child below bare_ground)) t u (suc t.that)
          (rw (append-nil (handed digest child (tree_hashes digest below))) g)),
    ready,
    e,
  )

  next_child-keeps_at :
      (i : ℕ) (s t : Hashing) (own : Record) (kids : Forest) (r : Panic ⊎ Option ℕ)
      → next_line lines i t.that ≡ r
      → Returning (IsInputPanic lines) (Stepped (contract digest lines) i s t) (stepped_to r t)
      → Returning
          (IsInputPanic lines)
          (Stepped (contract digest lines) i s t)
          (next_child lines i t)
  unfolding next_child
  next_child-keeps_at i s t own kids r e h =
      subst
        (λ q.
          Returning (IsInputPanic lines) (Stepped (contract digest lines) i s t) (stepped_to q t))
        (sym e) h

  -- Where the last line walked is the node itself, the next name is longer than its name.
  no_collision :
      (i : ℕ) (own next last : Record) (kids : Forest) (t : Hashing)
      → Span digest lines i own kids t
      → get_elem? lines (suc t.that) ≡ some next
      → get_elem? lines t.that ≡ some last
      → name_of last ≡ name_of next
      → length (name_of own) < length (name_of next)
      → ⊥
  no_collision i own next last kids t span line g e l = elim span.apart [
    | inl at ↦
        let same : last ≡ own =
          some-injective last own (sym g ∙ ap (get_elem? lines) at ∙ span.line) in
        omega (arith, l, ap (λ r. length (name_of r)) same, ap length e)
    | inr apart ↦ apart next last line g e
  ]

  Span-layout :
      (i : ℕ) (own next : Record) (kids : Forest) (t : Hashing)
      → Span digest lines i own kids t
      → get_elem? lines (suc t.that) ≡ some next
      → lines ≡ take i lines ++ (own ∷ (preorder kids ++ (next ∷ drop (suc (suc t.that)) lines)))
  Span-layout i own next kids t span line =
      sym (take-append-drop i lines)
      ∙ ap (λ l. take i lines ++ l)
          (span.layout
            ∙ ap (λ l. own ∷ (preorder kids ++ l)) (drop-get_elem? lines (suc t.that) next line))

  missing-IsInputPanic :
      (i : ℕ) (own next : Record) (kids : Forest) (t : Hashing)
      → Span digest lines i own kids t
      → get_elem? lines (suc t.that) ≡ some next
      → has_prefix (name_of next) (name_of own) ≡ true
      → length (name_of own) < length (name_of next)
      → contains (between (name_of next) (name_of own)) slash ≡ true
      → IsInputPanic lines missing_tree
  unfolding IsInputPanic
  missing-IsInputPanic i own next kids t span line h l m = inl (
    refl,
    λ (root, all_kids, is_tree).
        no_tree own next kids h l m lines (take i lines) (drop (suc (suc t.that)) lines) root
          all_kids
          (Span-layout i own next kids t span line
            ∙ sym (
                append_assoc (take i lines) (own ∷ preorder kids)
                  (next ∷ drop (suc (suc t.that)) lines)))
          span.nested (span.past next line) is_tree,
  )

  slice-IsInputPanic :
      (i : ℕ) (own next : Record) (kids : Forest) (t : Hashing)
      → Span digest lines i own kids t
      → get_elem? lines (suc t.that) ≡ some next
      → name_of next ≡ name_of own
      → IsInputPanic lines slice_bounds
  unfolding IsInputPanic
  slice-IsInputPanic i own next kids t span line same = inr (
    refl,
    (
      take i lines,
      own,
      preorder kids,
      next,
      drop (suc (suc t.that)) lines,
      Span-layout i own next kids t span line,
      sym same,
    ),
  )

  next_child-step :
      (i : ℕ) (s t : Hashing) (own next last : Record) (kids : Forest)
      → Span digest lines i own kids t
      → Progress digest lines (is_dir_record own) own kids s t
      → Ready s
      → s.that ≡ i
      → get_elem? lines (suc t.that) ≡ some next
      → get_elem? lines t.that ≡ some last
      → Returning
          (IsInputPanic lines)
          (Stepped (contract digest lines) i s t)
          (next_child lines i t)
  unfolding Returning Stepped
  next_child-step i s t own next last kids span p ready e line g =
      let line_lem = next_line_lem lines i t.that next own last line span.line g in
      elim (child_at-Found (suc t.that) (name_of next) (name_of own) (name_of last)) [
        | inl (c, f) ↦
            next_child-keeps_at i s t own kids (inr none) (line_lem ∙ c)
              (own, kids, span, p, ready, e, inr (next, line, f))
        | inr (inl (c, h, l, m)) ↦
            next_child-keeps_at i s t own kids (inl missing_tree) (line_lem ∙ c)
              (missing-IsInputPanic i own next kids t span line h l m)
        | inr (inr (inl (c, f))) ↦
            next_child-keeps_at i s t own kids (inl slice_bounds) (line_lem ∙ c)
              (slice-IsInputPanic i own next kids t span line f)
        | inr (inr (inr (inl (c, l)))) ↦
            absurd (no_collision i own next last kids t span line g c l)
        | inr (inr (inr (inr (c, f)))) ↦
            next_child-keeps_at i s t own kids (inr (some (suc t.that))) (line_lem ∙ c) (
              (
                refl,
                get_elem?-lt lines (suc t.that) next line,
                span.counted,
                Progress-Ready (is_dir_record own) own kids s t p ready,
              ),
              omega (arith, get_elem?-lt lines (suc t.that) next line),
              λ u d. child-Inside i own next kids s t u span p ready e line f d,
            )
      ]

  pub next_child-keeps :
      (i : ℕ) (s t : Hashing)
      → Inside digest lines i s t
      → Returning
          (IsInputPanic lines)
          (Stepped (contract digest lines) i s t)
          (next_child lines i t)
  unfolding Returning Stepped
  next_child-keeps i s t (own, kids, span, p, ready, e) =
      elim (Option-cases (get_elem? lines (suc t.that))) [
        | inl n ↦
            next_child-keeps_at i s t own kids (inr none) (next_line-last lines i t.that n)
              (own, kids, span, p, ready, e, inl n)
        | inr (next, line) ↦
            let (last, g) = get_elem?-some lines t.that span.bounded in
            next_child-step i s t own next last kids span p ready e line g
      ]

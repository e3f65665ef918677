-- ===== src/Fshash/Visits.antt =====
-- `preVisit`, `NextChild` and `postVisit` of `Hash` keep the invariant of the walk.
use repeatr.Base.{
  ℕ, suc, ◌<◌, ◌≡◌, refl, sym, ap, subst, ◌∙◌, Bool, true, false, Text, some, List, [], ◌∷◌, ◌++◌,
  map, get_elem?, arith, inl, ◌==◌, nat_eq, ==-refl,
}
use repeatr.Treewalk.{returned, ok}
use repeatr.Treewalk.Rule.{Returning, Answered, Ended}
use repeatr.Fs.{Item, array_break, bytes_item}
use repeatr.Fshash.{Record, is_dir_record}
use repeatr.Fshash.State.{
  Upsub, Hashing, open_dir, open_file, fresh, write, dir_opening, file_items, upsub, pre_record,
  pre_visit, post_visit, post_record, close_dir, pop_upsub,
}
use repeatr.Fshash.Tree.{Forest, bare_ground, preorder, tree_hashes, dir_items}
use repeatr.Fshash.Growth.{
  Grown, Grown-refl, Grown-trans, Grown-fresh, after_upsub, after_upsub_same, Grown-after_upsub,
  upsub_lem,
}
use repeatr.Fshash.Span.{
  IsInputPanic, get_elem?-lt, get_elem?-some, drop-get_elem?, Ready, Progress, Span, Enter, Stop,
  Exhausted, contract,
}

module _ (digest : List Item → Text) (lines : List Record) where
  -- A node that has been entered, before its children.
  Span-first :
      (i : ℕ) (own : Record) (s t : Hashing)
      → get_elem? lines i ≡ some own
      → s.that ≡ i
      → s.visit_count ≡ i
      → t.that ≡ s.that
      → t.visit_count ≡ suc s.visit_count
      → Span digest lines i own bare_ground t
  Span-first i own s t line e c ft fc = record {
    line = line;
    layout = unfold preorder in rw (ft, e) (drop-get_elem? lines i own line);
    nested = tt;
    past = λ r e. tt;
    counted = omega arith;
    reached = omega arith;
    bounded = omega (arith, get_elem?-lt lines i own line);
    apart = inl (ft ∙ e);
  }

  fresh_own :
      (s : Hashing) (items : List Item) → fresh s.next_hasher items s.written s.next_hasher ≡ items
  fresh_own s items = rw (==-refl s.next_hasher) refl

  fresh_other :
      (s : Hashing) (items : List Item) (k : ℕ)
      → k < s.next_hasher
      → fresh s.next_hasher items s.written k ≡ s.written k
  fresh_other s items k l = ground arith

  Grown-open_file : (own : Record) (s : Hashing) → Grown [] s (open_file own s)
  Grown-open_file own s =
      Grown-fresh s (open_file own s) refl refl (omega arith) (fresh_other s (file_items own)) refl

  file-keeps :
      (i : ℕ) (own : Record) (s : Hashing) (u : Upsub) (rest : List Upsub)
      → s.upsubs ≡ u ∷ rest
      → Grown
          (digest (file_items own) ∷ [])
          s
          (after_upsub (u ∷ rest) (digest (file_items own)) (open_file own s))
  file-keeps i own s u rest q =
      Grown-trans [] (digest (file_items own) ∷ []) s (open_file own s) _ (Grown-open_file own s)
        (Grown-after_upsub u rest (digest (file_items own)) (open_file own s) q)

  pre_record_file :
      (own : Record) (s : Hashing) (u : Upsub) (rest : List Upsub)
      → s.upsubs ≡ u ∷ rest
      → pre_record {E = ⊥} digest lines false own s
        ≡ returned ok (after_upsub (u ∷ rest) (digest (file_items own)) (open_file own s))
  pre_record_file own s u rest q =
      ap
        (λ us.
          upsub {E = ⊥} digest lines us
            (digest (fresh s.next_hasher (file_items own) s.written s.next_hasher))
            (open_file own s))
        q
      ∙ ap (λ items. upsub {E = ⊥} digest lines (u ∷ rest) (digest items) (open_file own s))
          (fresh_own s (file_items own))
      ∙ upsub_lem {E = ⊥} digest lines u rest (digest (file_items own)) (open_file own s)

  pre_record-keeps :
      (i : ℕ) (own : Record) (s : Hashing) (b : Bool)
      → is_dir_record own ≡ b
      → get_elem? lines i ≡ some own
      → Enter digest lines i s
      → Returning
          (IsInputPanic lines)
          (Answered (contract digest lines) i s)
          (pre_record {E = ⊥} digest lines b own s)
  unfolding Returning Answered tree_hashes
  pre_record-keeps i own s true eb line (e, l, c, ready) = (
    own,
    bare_ground,
    Span-first i own s (open_dir own s) line e c refl refl,
    rw (eb, tree_hashes) (Grown-refl (open_dir own s)),
    ready,
    e,
  )
  pre_record-keeps i own s false eb line (e, l, c, (u, rest, q)) =
      let x : Text = digest (file_items own) in
      let (same, count) = after_upsub_same (u ∷ rest) x (open_file own s) in
      subst (Returning (IsInputPanic lines) (Answered (contract digest lines) i s))
        (sym (pre_record_file own s u rest q))
        (
          own,
          bare_ground,
          Span-first i own s (after_upsub (u ∷ rest) x (open_file own s)) line e c same count,
          rw (eb, tree_hashes) (file-keeps i own s u rest q),
          (u, rest, q),
          e,
        )

  pre_visit_lem :
      (i : ℕ) (own : Record) (s : Hashing)
      → get_elem? lines i ≡ some own
      → pre_visit {E = ⊥} digest lines i s ≡ pre_record digest lines (is_dir_record own) own s
  unfolding pre_visit nat_eq
  pre_visit_lem i own s line = rw (line, pre_visit) refl

  pub pre_visit-keeps :
      (i : ℕ) (s : Hashing)
      → Enter digest lines i s
      → Returning
          (IsInputPanic lines)
          (Answered (contract digest lines) i s)
          (pre_visit {E = ⊥} digest lines i s)
  pre_visit-keeps i s (e, l, c, ready) =
      let (own, line) = get_elem?-some lines i l in
      rw (pre_visit_lem i own s line)
        (pre_record-keeps i own s (is_dir_record own) refl line (e, l, c, ready))

  dir_contents :
      (own : Record) (kids : Forest) (s t : Hashing)
      → Progress digest lines true own kids s t
      → t.written s.next_hasher ≡ dir_opening own ++ map bytes_item (tree_hashes digest kids)
  dir_contents own kids s t p =
      p.contents s.next_hasher (omega arith) ∙ rw (==-refl s.next_hasher) refl

  -- The state of `postVisit` of a directory where its hash is handed up.
  abbrev closing : Hashing → Upsub → List Upsub → Hashing → Hashing
  closing s u rest t = record t {
    hashers = s.hashers;
    written = write s.next_hasher (array_break ∷ []) t.written;
    upsubs = u ∷ rest;
  }

  closed_contents :
      (own : Record) (kids : Forest) (s t : Hashing)
      → Progress digest lines true own kids s t
      → write s.next_hasher (array_break ∷ []) t.written s.next_hasher
        ≡ dir_items own (tree_hashes digest kids)
  closed_contents own kids s t p =
      rw (==-refl s.next_hasher) (ap (λ l. l ++ (array_break ∷ [])) (dir_contents own kids s t p))

  post_record_dir :
      (own : Record) (kids : Forest) (s t : Hashing) (u : Upsub) (rest : List Upsub)
      → Progress digest lines true own kids s t
      → s.upsubs ≡ u ∷ rest
      → post_record {E = ⊥} digest lines true t
        ≡ returned ok (
            after_upsub
              (u ∷ rest)
              (digest (dir_items own (tree_hashes digest kids)))
              (closing s u rest t))
  post_record_dir own kids s t u rest p q =
      let closed : ℕ → List Item = write s.next_hasher (array_break ∷ []) t.written in
      let popped : Hashing = record t { hashers = s.hashers; written = closed } in
      ap (λ hs. close_dir {E = ⊥} digest lines hs t) p.same_hashers
      ∙ ap (λ us. pop_upsub {E = ⊥} digest lines us (digest (closed s.next_hasher)) popped)
          p.same_upsubs
      ∙ ap
          (λ us.
            upsub {E = ⊥} digest lines us (digest (closed s.next_hasher))
              (record popped { upsubs = us }))
          q
      ∙ ap (λ items. upsub {E = ⊥} digest lines (u ∷ rest) (digest items) (closing s u rest t))
          (closed_contents own kids s t p)
      ∙ upsub_lem {E = ⊥} digest lines u rest (digest (dir_items own (tree_hashes digest kids)))
          (closing s u rest t)

  kept_contents :
      (own : Record) (kids : Forest) (s t : Hashing)
      → Progress digest lines true own kids s t
      → (k : ℕ) → k < s.next_hasher
      → write s.next_hasher (array_break ∷ []) t.written k ≡ s.written k
  kept_contents own kids s t p k l =
      let other : (s.next_hasher == k) ≡ false = ground arith in
      let kept : t.written k ≡ s.written k = p.contents k (omega arith) ∙ rw other refl in
      rw (other, kept) refl

  Grown-closing :
      (own : Record) (kids : Forest) (s t : Hashing) (u : Upsub) (rest : List Upsub)
      → Progress digest lines true own kids s t
      → s.upsubs ≡ u ∷ rest
      → Grown [] s (closing s u rest t)
  Grown-closing own kids s t u rest p q =
      Grown-fresh s (closing s u rest t) (sym q) refl (omega (arith, p.more_hashers))
        (kept_contents own kids s t p) p.answered

  Span-same :
      (i : ℕ) (own : Record) (kids : Forest) (t u : Hashing)
      → Span digest lines i own kids t
      → u.that ≡ t.that
      → u.visit_count ≡ t.visit_count
      → Span digest lines i own kids u
  Span-same i own kids t u span e c = record {
    line = span.line;
    layout = rw e span.layout;
    nested = span.nested;
    past = rw e span.past;
    counted = c ∙ span.counted ∙ ap suc (sym e);
    reached = omega (arith, e, span.reached);
    bounded = omega (arith, e, span.bounded);
    apart = rw e span.apart;
  }

  post_record-keeps :
      (i : ℕ) (own : Record) (kids : Forest) (s t : Hashing) (b : Bool)
      → is_dir_record own ≡ b
      → Span digest lines i own kids t
      → Progress digest lines b own kids s t
      → Ready s
      → s.that ≡ i
      → Stop digest lines own t
      → Returning
          (IsInputPanic lines)
          (Ended (contract digest lines) i s)
          (post_record {E = ⊥} digest lines b t)
  unfolding Returning Ended
  post_record-keeps i own kids s t true eb span p (u, rest, q) e stop =
      let x : Text = digest (dir_items own (tree_hashes digest kids)) in
      let (same, count) = after_upsub_same (u ∷ rest) x (closing s u rest t) in
      subst (Returning (IsInputPanic lines) (Ended (contract digest lines) i s))
        (sym (post_record_dir own kids s t u rest p q))
        (
          own,
          kids,
          Span-same i own kids t (after_upsub (u ∷ rest) x (closing s u rest t)) span same count,
          rw eb (
              Grown-trans [] (x ∷ []) s (closing s u rest t) _
                (Grown-closing own kids s t u rest p q)
                (Grown-after_upsub u rest x (closing s u rest t) refl)),
          e,
          rw same stop,
        )
  post_record-keeps i own kids s t false eb span p ready e stop =
      (own, kids, span, rw eb p, e, stop)

  post_visit_lem :
      (i : ℕ) (own : Record) (t : Hashing)
      → get_elem? lines i ≡ some own
      → post_visit {E = ⊥} digest lines i t ≡ post_record digest lines (is_dir_record own) t
  unfolding post_visit nat_eq
  post_visit_lem i own t line = rw (line, post_visit) refl

  pub post_visit-keeps :
      (i : ℕ) (s t : Hashing)
      → Exhausted digest lines i s t
      → Returning
          (IsInputPanic lines)
          (Ended (contract digest lines) i s)
          (post_visit {E = ⊥} digest lines i t)
  post_visit-keeps i s t (own, kids, span, p, ready, e, stop) =
      rw (post_visit_lem i own t span.line)
        (post_record-keeps i own kids s t (is_dir_record own) refl span p ready e stop)

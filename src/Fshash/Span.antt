-- ===== src/Fshash/Span.antt =====
-- The invariant of the walk of `Hash`: the lines walked since a node was entered are a tree, in
-- preorder, and its hashes are what was handed up.
use repeatr.Base.{
  ℕ, zero, suc, ◌≤◌, ◌<◌, ◌-◌, ◌≡◌, refl, Bool, true, false, Text, none, some, List, [], ◌∷◌, ◌++◌,
  length, get_elem?, drop, arith, ◌⊎◌, ◌≢◌,
}
use repeatr.Base.Paths.{has_prefix}
use repeatr.Treewalk.Rule.{Contract}
use repeatr.Fs.{Item}
use repeatr.Fshash.{Record, name_of, is_dir_record, Panic, missing_tree, slice_bounds}
use repeatr.Fshash.State.{Upsub, Hashing, open_dir, file_items}
use repeatr.Fshash.Tree.{Forest, preorder, IsNested, IsPast, IsTreeOf, tree_hashes, handed}
use repeatr.Fshash.Growth.{Grown}

-- The lines are no tree in preorder.
abbrev pub IsNoTree : List Record → Type 0
IsNoTree lines = ¬ ((root : Record) × (kids : Forest) × IsTreeOf lines root kids)

-- Two lines have one name.
abbrev pub IsRepeated : List Record → Type 0
IsRepeated lines =
    (before : List Record) × (r : Record) × (others : List Record) × (again : Record)
    × (after : List Record) × (lines ≡ before ++ (r ∷ (others ++ (again ∷ after))))
    × (name_of r ≡ name_of again)

-- The panics that the lines themselves can bring about.
unfoldable pub IsInputPanic : List Record → Panic → Type 0
IsInputPanic lines p =
    ((p ≡ missing_tree) × IsNoTree lines) ⊎ ((p ≡ slice_bounds) × IsRepeated lines)

module _ {A : Type 0} where
  pub get_elem?-lt : (xs : List A) (i : ℕ) (x : A) → get_elem? xs i ≡ some x → i < length xs
  get_elem?-lt [] i x e = cc
  get_elem?-lt (y ∷ xs) zero x e = omega arith
  get_elem?-lt (y ∷ xs) (suc i) x e = omega (arith, get_elem?-lt xs i x e)

  pub get_elem?-some : (xs : List A) (i : ℕ) → i < length xs → (x : A) × (get_elem? xs i ≡ some x)
  get_elem?-some [] i l = absurd (omega arith)
  get_elem?-some (y ∷ xs) zero l = (y, refl)
  get_elem?-some (y ∷ xs) (suc i) l = get_elem?-some xs i (omega arith)

  pub drop-get_elem? :
      (xs : List A) (i : ℕ) (x : A) → get_elem? xs i ≡ some x → drop i xs ≡ x ∷ drop (suc i) xs
  drop-get_elem? [] i x e = cc
  drop-get_elem? (y ∷ xs) zero x e = cc
  drop-get_elem? (y ∷ xs) (suc i) x e = drop-get_elem? xs i x e

  pub get_elem?-none : (xs : List A) (i : ℕ) → get_elem? xs i ≡ none → drop i xs ≡ []
  get_elem?-none [] zero e = refl
  get_elem?-none [] (suc i) e = refl
  get_elem?-none (y ∷ xs) zero e = cc
  get_elem?-none (y ∷ xs) (suc i) e = get_elem?-none xs i e

-- Someone is waiting for a hash.
abbrev pub Ready : Hashing → Type 0
Ready s = (u : Upsub) × (rest : List Upsub) × (s.upsubs ≡ u ∷ rest)

module _ (digest : List Item → Text) (lines : List Record) where
  -- What was handed up since the node was entered: a directory's hasher gets the hashes below it.
  abbrev pub Progress : Bool → Record → Forest → Hashing → Hashing → Type 0
  Progress true own kids s t = Grown (tree_hashes digest kids) (open_dir own s) t
  Progress false own kids s t = Grown (digest (file_items own) ∷ tree_hashes digest kids) s t

  -- The last line walked and the next have different names.
  abbrev pub Apart : Hashing → Type 0
  Apart t =
      (next last : Record)
      → get_elem? lines (suc t.that) ≡ some next
      → get_elem? lines t.that ≡ some last
      → name_of last ≢ name_of next

  -- The lines from `i` to the last one walked are the record `own` and the forest `kids`.
  pub record Span (i : ℕ) (own : Record) (kids : Forest) (t : Hashing) : Type 0 where
    pub line : get_elem? lines i ≡ some own
    pub layout : drop i lines ≡ own ∷ (preorder kids ++ drop (suc t.that) lines)
    pub nested : IsNested (name_of own) kids
    pub past : (r : Record) → get_elem? lines (suc t.that) ≡ some r → IsPast (name_of r) kids
    pub counted : t.visit_count ≡ suc t.that
    pub reached : i ≤ t.that
    pub bounded : t.that < length lines
    pub apart : (t.that ≡ i) ⊎ Apart t

  abbrev pub Enter : ℕ → Hashing → Type 0
  Enter i s = (s.that ≡ i) × (i < length lines) × (s.visit_count ≡ i) × Ready s

  abbrev pub Inside : ℕ → Hashing → Hashing → Type 0
  Inside i s t =
      (own : Record) × (kids : Forest) × Span i own kids t
      × Progress (is_dir_record own) own kids s t
      × Ready s
      × (s.that ≡ i)

  -- The next line is not below `own`.
  abbrev pub Stop : Record → Hashing → Type 0
  Stop own t =
      (get_elem? lines (suc t.that) ≡ none)
      ⊎ ((r : Record) × (get_elem? lines (suc t.that) ≡ some r)
          × (has_prefix (name_of r) (name_of own) ≡ false))

  abbrev pub Exhausted : ℕ → Hashing → Hashing → Type 0
  Exhausted i s t =
      (own : Record) × (kids : Forest) × Span i own kids t
      × Progress (is_dir_record own) own kids s t
      × Ready s
      × (s.that ≡ i)
      × Stop own t

  abbrev pub Done : ℕ → Hashing → Hashing → Type 0
  Done i s t =
      (own : Record) × (kids : Forest) × Span i own kids t
      × Grown (handed digest own (tree_hashes digest kids)) s t
      × (s.that ≡ i)
      × Stop own t

  abbrev pub contract : Contract ℕ Hashing
  contract = record {
    measure = λ s. length lines - s.that;
    Enter = Enter;
    Inside = Inside;
    Exhausted = Exhausted;
    Done = Done;
    inside_le = λ i s t (own, kids, span, p, ready, e). omega (arith, e, span.reached);
    done_le = λ i s t (own, kids, span, g, e, stop). omega (arith, e, span.reached);
  }

-- ===== src/Fshash/Found.antt =====
-- What `NextChild` finds in the names of the lines.
use repeatr.Base.{
  ℕ, suc, ◌<◌, ◌≡◌, refl, true, false, Text, none, some, List, length, get_elem?, arith, ◌⊎◌, inl,
  inr, Bool-cases, ◌==◌, text_eq, nat_eq, ltb, ltb→lt, contains, eq-of-==,
}
use repeatr.Base.Paths.{has_prefix, slash}
use repeatr.Fshash.{Record, name_of, missing_tree, slice_bounds, child_at, next_line, between}
use repeatr.Fshash.Tree.{IsStep}
use repeatr.Fshash.Shape.{between-added, same_of_prefix}

-- What `NextChild` finds in the names: `a` of the next line, `b` of this one, `c` of the last.
abbrev pub Found : ℕ → Text → Text → Text → Type 0
Found next a b c =
    ((child_at next a b c ≡ inr none) × (has_prefix a b ≡ false))
    ⊎ (((child_at next a b c ≡ inl missing_tree)
          × (has_prefix a b ≡ true)
          × (length b < length a)
          × (contains (between a b) slash ≡ true))
        ⊎ (((child_at next a b c ≡ inl slice_bounds) × (a ≡ b))
            ⊎ (((c ≡ a) × (length b < length a))
                ⊎ ((child_at next a b c ≡ inr (some next)) × IsStep a b))))

pub child_at-Found : (next : ℕ) (a b c : Text) → Found next a b c
unfolding child_at
child_at-Found next a b c = elim (Bool-cases (has_prefix a b)) [
  | inr f ↦ inl (rw f refl, f)
  | inl t ↦ elim (Bool-cases (ltb (length b) (length a))) [
    | inr f ↦ inr (inr (inl (rw (t, f) refl, same_of_prefix a b t (ground (arith, f)))))
    | inl l ↦
        let shorter = ltb→lt (length b) (length a) l in
        elim (Bool-cases (contains (between a b) slash)) [
          | inl m ↦ inr (inl (rw (t, l, m) refl, t, shorter, m))
          | inr n ↦ elim (Bool-cases (c == a)) [
            | inl e ↦ inr (inr (inr (inl (eq-of-== c a e, shorter))))
            | inr d ↦
                let (w, z, e, same) = between-added a b t shorter in
                inr (inr (inr (inr (rw (t, l, n, d) refl, (w, z, e, rw (← same) n)))))
          ]
        ]
  ]
]

pub next_line-last :
    (lines : List Record) (this that : ℕ)
    → get_elem? lines (suc that) ≡ none
    → next_line lines this that ≡ inr none
unfolding next_line
next_line-last lines this that e = rw e refl

pub next_line_lem :
    (lines : List Record) (this that : ℕ) (next own last : Record)
    → get_elem? lines (suc that) ≡ some next
    → get_elem? lines this ≡ some own
    → get_elem? lines that ≡ some last
    → next_line lines this that ≡ child_at (suc that) (name_of next) (name_of own) (name_of last)
unfolding next_line
next_line_lem lines this that next own last e f g = rw (e, f, g) refl

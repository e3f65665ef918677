-- ===== src/Placer/Order.antt =====
-- The order in which an assembler puts its parts in place.
use repeatr.Base.{
  ℕ, ◌≡◌, refl, sym, ap, subst, ◌∙◌, true, false, Text, List, [], ◌∷◌, ◌++◌, inl, inr, length, drop,
  text_ltb, text_ltb_trans, text_ltb_antisymm, text_ltb-append_left, arith, Bool-cases, ◌==◌,
  ==-refl, eq-of-==, text_eq,
}
use repeatr.Base.Paths.{has_prefix, has_prefix_refl, has_prefix-split}
use repeatr.Base.Sort.{sort_by, sort_by_perm, sort_by-IsSorted, IsSorted, IsKeyed}
use repeatr.Provision.{AssemblyPart}
use repeatr.Emplace.{Call, Reply}
use repeatr.Placer.{Placer, target_of, place_parts, assemble}
use mathlib.Core.List.{append-nil}
use mathlib.Core.List.Permᴰ.{Permᴰ}

module _ {A : Type 0} (key : A → Text) where
  not_less_trans :
      (x y z : Text) → text_ltb y x ≡ false → text_ltb z y ≡ false → text_ltb z x ≡ false
  not_less_trans x y z h k = ground (
    arith,
    text_ltb_trans z x y,
    text_ltb_antisymm x y,
    text_ltb_antisymm y z,
    text_ltb_trans x y z,
  )

  later_not_less :
      (x q : A) (xs ys : List A)
      → IsSorted key (x ∷ (xs ++ (q ∷ ys)))
      → text_ltb (key q) (key x) ≡ false
  unfolding IsSorted
  later_not_less x q [] ys (h, s) = h
  later_not_less x q (y ∷ xs) ys (h, s) =
      not_less_trans (key x) (key y) (key q) h (later_not_less y q xs ys s)

  tail_IsSorted : (xs : List A) (ys : List A) → IsSorted key (xs ++ ys) → IsSorted key ys
  unfolding IsSorted
  tail_IsSorted [] ys s = s
  tail_IsSorted (x ∷ xs) ys (h, s) = tail_IsSorted xs ys s

less_append : (q : Text) (c : ℕ) (s : Text) → text_ltb q (q ++ (c ∷ s)) ≡ true
less_append q c s =
    ap (λ x. text_ltb x (q ++ (c ∷ s))) (sym (append-nil q))
    ∙ text_ltb-append_left q [] (c ∷ s)
    ∙ first_less c s
  where
    first_less : (d : ℕ) (u : Text) → text_ltb [] (d ∷ u) ≡ true
    first_less d u = unfold text_ltb in refl

-- A prefix is not after what it is a prefix of, unless they are the same.
prefix_not_less : (p q : Text) → has_prefix p q ≡ true → text_ltb q p ≡ false → p ≡ q
prefix_not_less p q h l = of (drop (length q) p) (has_prefix-split p q h) l
  where
    of : (s : Text) → p ≡ q ++ s → text_ltb q p ≡ false → p ≡ q
    of [] e l = e ∙ append-nil q
    of (c ∷ s) e l =
        let less : text_ltb q p ≡ true = rw e (less_append q c s) in absurd (ground arith)

-- Of two parts, the one placed first has a target that begins with the other's only if the targets are the same: a part goes in after
-- what it is inside of.
pub sort_by-parents_first :
    (parts first between last : List AssemblyPart) (p q : AssemblyPart)
    → sort_by target_of parts ≡ first ++ (p ∷ (between ++ (q ∷ last)))
    → has_prefix (target_of p) (target_of q) ≡ (target_of p == target_of q)
sort_by-parents_first parts first between last p q e =
    let order : text_ltb (target_of q) (target_of p) ≡ false =
      later_not_less target_of p q between last (
        tail_IsSorted target_of first (p ∷ (between ++ (q ∷ last)))
          (subst (IsSorted target_of) e (sort_by-IsSorted target_of parts))) in
    elim (Bool-cases (has_prefix (target_of p) (target_of q))) [
      | inl h ↦
          let same = prefix_not_less (target_of p) (target_of q) h order in
          h ∙ sym (ap (λ x. x == target_of q) same ∙ ==-refl (target_of q))
      | inr h ↦ elim (Bool-cases (target_of p == target_of q)) [
        | inl t ↦
            let same = eq-of-== (target_of p) (target_of q) t in
            let yes : has_prefix (target_of p) (target_of q) ≡ true =
              ap (λ x. has_prefix x (target_of q)) same ∙ has_prefix_refl (target_of q) in
            absurd (ground arith)
        | inr f ↦ h ∙ sym f
      ]
    ]

-- Where no two different parts have one target, the order in which the parts were given does not change
-- what `Assemble` does.
pub assemble_perm :
    {E M : Type 0}
    → (os : List Call → Call → Reply) (placer : Placer E M) (base : Text)
      (parts reordered : List AssemblyPart) (calls : List Call)
    → Permᴰ parts reordered
    → IsKeyed target_of parts
    → assemble os placer base parts calls ≡ assemble os placer base reordered calls
unfolding assemble
assemble_perm os placer base parts reordered calls p k =
    ap (λ sorted. place_parts os placer base sorted [] calls)
      (sort_by_perm target_of parts reordered p k)

-- ===== src/Base/Sort.antt =====
-- `sort.Sort` and `sort.Strings` of Go, for orders by a text. Go leaves open how entries of the same
-- key come to stand; here they keep their order.
use repeatr.Base.Tests.{if◌then◌else◌, Bool-cases}
use repeatr.Base.Equality.{Text}
use repeatr.Base.Lists.{length}
use repeatr.Base.TextOrder.{text_ltb, text_ltb_irrefl, text_ltb_trans, text_ltb_antisymm}
use Prim.Native.Nat.{suc}
use mathlib.Core.Path.{◌≡◌, refl, sym, ap, subst, ◌∙◌}
use mathlib.Core.Logic.{inl, inr}
use mathlib.Core.Bool.{true, false}
use mathlib.Core.List.{List, [], ◌∷◌}
use mathlib.Core.List.Permᴰ.{Permᴰ}
use mathlib.Core.List.Permᴰ
use native.Mathlib.Omega.{arith}

module _ {A : Type 0} (key : A → Text) where
  -- Before the first entry with a key that is not less.
  unfoldable pub insert_by : A → List A → List A
  insert_by x [] = x ∷ []
  insert_by x (y ∷ ys) =
      let rest = insert_by x ys in if text_ltb (key y) (key x) then y ∷ rest else x ∷ y ∷ ys

  unfoldable pub sort_by : List A → List A
  unfolding insert_by
  sort_by [] = []
  sort_by (x ∷ xs) = insert_by x (sort_by xs)

  -- Every key is at most the next.
  abbrev NotBefore : A → List A → Type 0
  NotBefore x [] = Unit
  NotBefore x (y ∷ ys) = text_ltb (key y) (key x) ≡ false

  unfoldable pub IsSorted : List A → Type 0
  IsSorted [] = Unit
  IsSorted (x ∷ xs) = NotBefore x xs × IsSorted xs

  -- What of the entries has the key of `x` is `x`.
  abbrev pub Agrees : A → List A → Type 0
  Agrees x [] = Unit
  Agrees x (y ∷ ys) = (key x ≡ key y → x ≡ y) × Agrees x ys

  -- Entries of the same key are the same.
  abbrev pub IsKeyed : List A → Type 0
  IsKeyed [] = Unit
  IsKeyed (x ∷ xs) = Agrees x xs × IsKeyed xs

  Agrees-perm : (x : A) (xs ys : List A) → Permᴰ xs ys → Agrees x xs → Agrees x ys
  Agrees-perm x xs ys Permᴰ.nil a = a
  Agrees-perm x (y ∷ xs) (z ∷ ys) (Permᴰ.cons e d) (f, a) = (rw (← e) f, Agrees-perm x xs ys d a)
  Agrees-perm x (y ∷ z ∷ l) (u ∷ v ∷ _) (Permᴰ.swap e f) (g, (h, a)) = (rw (← f) h, (rw (← e) g, a))
  Agrees-perm x xs zs (Permᴰ.trans {l₂ = ys} p q) a =
      Agrees-perm x ys zs q (Agrees-perm x xs ys p a)

  IsKeyed-perm : (xs ys : List A) → Permᴰ xs ys → IsKeyed xs → IsKeyed ys
  IsKeyed-perm xs ys Permᴰ.nil k = k
  IsKeyed-perm (x ∷ xs) (y ∷ ys) (Permᴰ.cons e d) (a, k) =
      (subst (λ w. Agrees w ys) e (Agrees-perm x xs ys d a), IsKeyed-perm xs ys d k)
  IsKeyed-perm (x ∷ y ∷ l) (u ∷ v ∷ _) (Permᴰ.swap e f) ((g, a), (b, k)) = (
    (rw (← e, ← f) (λ h. sym (g (sym h))), subst (λ w. Agrees w l) f b),
    (subst (λ w. Agrees w l) e a, k),
  )
  IsKeyed-perm xs zs (Permᴰ.trans {l₂ = ys} p q) k = IsKeyed-perm ys zs q (IsKeyed-perm xs ys p k)

  insert_by-after :
      (x y : A) (ys : List A)
      → text_ltb (key y) (key x) ≡ true
      → insert_by x (y ∷ ys) ≡ y ∷ insert_by x ys
  unfolding insert_by
  insert_by-after x y ys h = rw h refl

  insert_by-before :
      (x y : A) (ys : List A) → text_ltb (key y) (key x) ≡ false → insert_by x (y ∷ ys) ≡ x ∷ y ∷ ys
  unfolding insert_by
  insert_by-before x y ys h = rw h refl

  first_comm :
      (x y : A) (zs : List A)
      → insert_by x zs ≡ x ∷ zs
      → insert_by y zs ≡ y ∷ zs
      → (key x ≡ key y → x ≡ y)
      → insert_by x (y ∷ zs) ≡ insert_by y (x ∷ zs)
  first_comm x y zs ex ey same = elim (Bool-cases (text_ltb (key y) (key x))) [
    | inl a ↦ elim (Bool-cases (text_ltb (key x) (key y))) [
      | inl b ↦
          absurd (ground (arith, text_ltb_trans (key x) (key y) (key x), text_ltb_irrefl (key x)))
      | inr b ↦ rw (insert_by-after x y zs a, insert_by-before y x zs b, ex) refl
    ]
    | inr a ↦ elim (Bool-cases (text_ltb (key x) (key y))) [
      | inl b ↦ rw (insert_by-before x y zs a, insert_by-after y x zs b, ey) refl
      | inr b ↦ rw (same (text_ltb_antisymm (key x) (key y) b a)) refl
    ]
  ]

  -- What is less than one key and not less than another lies between them.
  below :
      (x y z : Text)
      → text_ltb z x ≡ true
      → text_ltb z y ≡ false
      → (text_ltb y x ≡ true) × (text_ltb x y ≡ false)
  below x y z h k =
      ground (
        arith,
        text_ltb_trans z x y,
        text_ltb_antisymm x y,
        text_ltb_trans x y x,
        text_ltb_irrefl x,
      )

  insert_by_comm :
      (x y : A) (zs : List A)
      → (key x ≡ key y → x ≡ y)
      → insert_by x (insert_by y zs) ≡ insert_by y (insert_by x zs)
  insert_by_comm x y [] same = unfold insert_by in first_comm x y [] refl refl same
  insert_by_comm x y (z ∷ zs) same = elim (Bool-cases (text_ltb (key z) (key x))) [
    | inl a ↦ elim (Bool-cases (text_ltb (key z) (key y))) [
      | inl b ↦
          rw
            (
              insert_by-after x z zs a,
              insert_by-after y z zs b,
              insert_by-after x z (insert_by y zs) a,
              insert_by-after y z (insert_by x zs) b,
              insert_by_comm x y zs same,
            )
            refl
      | inr b ↦
          let (l, g) = below (key x) (key y) (key z) a b in
          rw
            (
              insert_by-after x z zs a,
              insert_by-before y z zs b,
              insert_by-after x y (z ∷ zs) l,
              insert_by-after x z zs a,
              insert_by-before y z (insert_by x zs) b,
            )
            refl
    ]
    | inr a ↦ elim (Bool-cases (text_ltb (key z) (key y))) [
      | inl b ↦
          let (l, g) = below (key y) (key x) (key z) b a in
          rw
            (
              insert_by-before x z zs a,
              insert_by-after y z zs b,
              insert_by-before x z (insert_by y zs) a,
              insert_by-after y x (z ∷ zs) l,
              insert_by-after y z zs b,
            )
            refl
      | inr b ↦
          rw (insert_by-before x z zs a, insert_by-before y z zs b)
            (first_comm x y (z ∷ zs) (insert_by-before x z zs a) (insert_by-before y z zs b) same)
    ]
  ]

  -- The order in which entries came does not matter.
  pub sort_by_perm : (xs ys : List A) → Permᴰ xs ys → IsKeyed xs → sort_by xs ≡ sort_by ys
  unfolding sort_by
  sort_by_perm xs ys Permᴰ.nil k = refl
  sort_by_perm (x ∷ xs) (y ∷ ys) (Permᴰ.cons e d) (a, k) = rw (e, sort_by_perm xs ys d k) refl
  sort_by_perm (x ∷ y ∷ l) (u ∷ v ∷ _) (Permᴰ.swap e f) ((same, a), k) =
      rw (← e, ← f) (insert_by_comm x y (sort_by l) same)
  sort_by_perm xs zs (Permᴰ.trans {l₂ = ys} p q) k =
      sort_by_perm xs ys p k ∙ sort_by_perm ys zs q (IsKeyed-perm xs ys p k)

  insert_by-perm : (x : A) (ys : List A) → Permᴰ (x ∷ ys) (insert_by x ys)
  unfolding insert_by
  insert_by-perm x [] = Permᴰ.refl (x ∷ [])
  insert_by-perm x (y ∷ ys) = elim (Bool-cases (text_ltb (key y) (key x))) [
    | inl a ↦ rw a (Permᴰ.trans (Permᴰ.swap refl refl) (Permᴰ.cons refl (insert_by-perm x ys)))
    | inr a ↦ rw a (Permᴰ.refl (x ∷ y ∷ ys))
  ]

  pub sort_by-perm : (xs : List A) → Permᴰ xs (sort_by xs)
  unfolding sort_by
  sort_by-perm [] = Permᴰ.nil
  sort_by-perm (x ∷ xs) =
      Permᴰ.trans (Permᴰ.cons refl (sort_by-perm xs)) (insert_by-perm x (sort_by xs))

  insert_by-NotBefore :
      (x y : A) (ys : List A)
      → text_ltb (key y) (key x) ≡ true
      → NotBefore y ys
      → NotBefore y (insert_by x ys)
  insert_by-NotBefore x y [] h b =
      unfold insert_by in
      ground (arith, text_ltb_trans (key x) (key y) (key x), text_ltb_irrefl (key x))
  insert_by-NotBefore x y (z ∷ zs) h b = elim (Bool-cases (text_ltb (key z) (key x))) [
    | inl a ↦ rw (insert_by-after x z zs a) b
    | inr a ↦
        rw (insert_by-before x z zs a)
          (ground (arith, text_ltb_trans (key x) (key y) (key x), text_ltb_irrefl (key x)))
  ]

  insert_by-IsSorted : (x : A) (ys : List A) → IsSorted ys → IsSorted (insert_by x ys)
  unfolding IsSorted
  insert_by-IsSorted x [] s = unfold insert_by in (tt, tt)
  insert_by-IsSorted x (y ∷ ys) (b, s) = elim (Bool-cases (text_ltb (key y) (key x))) [
    | inl a ↦
        rw (insert_by-after x y ys a) (insert_by-NotBefore x y ys a b, insert_by-IsSorted x ys s)
    | inr a ↦ rw (insert_by-before x y ys a) (a, (b, s))
  ]

  pub sort_by-IsSorted : (xs : List A) → IsSorted (sort_by xs)
  unfolding sort_by
  sort_by-IsSorted [] = unfold IsSorted in tt
  sort_by-IsSorted (x ∷ xs) = insert_by-IsSorted x (sort_by xs) (sort_by-IsSorted xs)

  pub length-insert_by : (x : A) (ys : List A) → length (insert_by x ys) ≡ suc (length ys)
  unfolding insert_by
  length-insert_by x [] = refl
  length-insert_by x (y ∷ ys) = ground (arith, length-insert_by x ys)

  pub length-sort_by : (xs : List A) → length (sort_by xs) ≡ length xs
  unfolding sort_by
  length-sort_by [] = refl
  length-sort_by (x ∷ xs) = rw (length-insert_by x (sort_by xs), length-sort_by xs) refl

module _ {A : Type 0} where
  pub length-perm : (xs ys : List A) → Permᴰ xs ys → length xs ≡ length ys
  length-perm xs ys Permᴰ.nil = refl
  length-perm (x ∷ xs) (y ∷ ys) (Permᴰ.cons e d) = ap suc (length-perm xs ys d)
  length-perm (x ∷ y ∷ l) (u ∷ v ∷ _) (Permᴰ.swap e f) = refl
  length-perm xs zs (Permᴰ.trans {l₂ = ys} p q) = length-perm xs ys p ∙ length-perm ys zs q

-- ===== src/Base/TextOrder.antt =====
-- Go's `<` on strings: bytes compared from the front, and a proper prefix comes first.
use repeatr.Base.Tests.{ltb, if◌then◌else◌}
use repeatr.Base.Equality.{Text, ◌==◌, nat_eq}
use repeatr.Base.Lists.{length}
use mathlib.Core.Path.{◌≡◌, refl}
use mathlib.Core.Bool.{Bool, true, false}
use mathlib.Core.List.{[], ◌∷◌, ◌++◌}
use native.Mathlib.Omega.{arith}

unfoldable pub text_ltb : Text → Text → Bool
text_ltb xs [] = false
text_ltb [] (y ∷ ys) = true
text_ltb (x ∷ xs) (y ∷ ys) =
    let rest = text_ltb xs ys in if ltb x y then true else if x == y then rest else false

pub text_ltb-append_left : (p xs ys : Text) → text_ltb (p ++ xs) (p ++ ys) ≡ text_ltb xs ys
unfolding text_ltb
text_ltb-append_left [] xs ys = refl
text_ltb-append_left (x ∷ p) xs ys = ground (arith, text_ltb-append_left p xs ys)

pub text_ltb-append :
    (xs ys us vs : Text)
    → length xs ≡ length ys
    → text_ltb xs ys ≡ true
    → text_ltb (xs ++ us) (ys ++ vs) ≡ true
unfolding text_ltb
text_ltb-append xs [] us vs e h = cc
text_ltb-append [] (y ∷ ys) us vs e h = absurd (omega arith)
text_ltb-append (x ∷ xs) (y ∷ ys) us vs e h = ground (arith, text_ltb-append xs ys us vs)

pub text_ltb_irrefl : (xs : Text) → text_ltb xs xs ≡ false
unfolding text_ltb
text_ltb_irrefl [] = refl
text_ltb_irrefl (x ∷ xs) = ground (arith, text_ltb_irrefl xs)

pub text_ltb_trans :
    (xs ys zs : Text) → text_ltb xs ys ≡ true → text_ltb ys zs ≡ true → text_ltb xs zs ≡ true
unfolding text_ltb
text_ltb_trans xs [] zs h k = cc
text_ltb_trans xs (y ∷ ys) [] h k = cc
text_ltb_trans [] (y ∷ ys) (z ∷ zs) h k = refl
text_ltb_trans (x ∷ xs) (y ∷ ys) (z ∷ zs) h k = ground (arith, text_ltb_trans xs ys zs)

pub text_ltb_antisymm : (xs ys : Text) → text_ltb xs ys ≡ false → text_ltb ys xs ≡ false → xs ≡ ys
unfolding text_ltb
text_ltb_antisymm [] [] h k = refl
text_ltb_antisymm [] (y ∷ ys) h k = cc
text_ltb_antisymm (x ∷ xs) [] h k = cc
text_ltb_antisymm (x ∷ xs) (y ∷ ys) h k = ground (arith, text_ltb_antisymm xs ys)

-- ===== src/Guid/Burst.antt =====
-- A run of calls within one millisecond.
use mathlib.Core.Path.{ap₂}
use mathlib.Core.List.{reverse}
use repeatr.Base.{
  Bool-cases, inl, inr, get_elem?-append_exact, ◌^◌, ◌*◌, false, ℕ, zero, suc, ◌+◌, ◌<◌, ◌≡◌, refl,
  ap, ◌∙◌, List, [], ◌∷◌, Text, arith, length, value, AllBelow, text_ltb, text_ltb_trans, true,
  some, get_elem?, length-append, length-reverse, length-map, ◌==◌, nat_eq, length-take,
  length-drop, take, drop,
}
use repeatr.Guid.{char_at, push_chars, Globals, increment, advance, new}
use repeatr.Guid.Layout.{chars, layout, new_lem}
use repeatr.Guid.Order.{
  capacity, full, not-full, length-increment, capacity-increment, increment-AllBelow,
  value-increment, layout_ascends,
}

-- The ids of `n` calls of `New`, all at the same reading of the clock.
pub burst : ℕ → ℕ → List ℕ → Globals → List Text
burst zero time draws g = []
burst (suc n) time draws g = let (id, g') = new time draws g in id ∷ burst n time draws g'

abbrev pub AllAbove : Text → List Text → Type 0
AllAbove x [] = Unit
AllAbove x (y ∷ ys) = (text_ltb x y ≡ true) × AllAbove x ys

abbrev pub Ascending : List Text → Type 0
Ascending [] = Unit
Ascending (x ∷ xs) = AllAbove x xs × Ascending xs

-- Sixteen digits below 32.
pub record IsReady (g : Globals) : Type 0 where
  pub sixteen : length g.last_rand_chars ≡ 16
  pub below : AllBelow 32 g.last_rand_chars

new-globals :
    (time : ℕ) (draws : List ℕ) (g : Globals) → (new time draws g).1 ≡ advance time draws g
unfolding new
new-globals time draws g = refl

advance_same :
    (time : ℕ) (draws : List ℕ) (g : Globals)
    → g.last_push_time ≡ time
    → advance time draws g ≡ record g { last_rand_chars = increment g.last_rand_chars }
advance_same time draws g e = ground arith

AllAbove-trans : (x y : Text) (zs : List Text) → text_ltb x y ≡ true → AllAbove y zs → AllAbove x zs
AllAbove-trans x y [] h a = tt
AllAbove-trans x y (z ∷ zs) h a = (text_ltb_trans x y z h a.0, AllAbove-trans x y zs h a.1)

module _ (time : ℕ) (draws : List ℕ) where
  burst-zero : (g : Globals) → burst zero time draws g ≡ []
  unfolding burst
  burst-zero g = refl

  burst-suc :
      (n : ℕ) (g : Globals)
      → g.last_push_time ≡ time
      → length g.last_rand_chars ≡ 16
      → burst (suc n) time draws g
        ≡ layout time (increment g.last_rand_chars)
          ∷ burst n time draws (record g { last_rand_chars = increment g.last_rand_chars })
  unfolding burst
  burst-suc n g e l =
      ap₂ (λ id rest. id ∷ rest)
        (new_lem time draws g (rw same (length-increment rs ∙ l))
          ∙ ap (λ h. layout time (Globals.last_rand_chars h)) same)
        (ap (burst n time draws) (new-globals time draws g ∙ same))
    where
      rs : List ℕ
      rs = g.last_rand_chars

      same : advance time draws g ≡ record g { last_rand_chars = increment rs }
      same = advance_same time draws g e

  burst_lem :
      (n : ℕ) (g : Globals)
      → g.last_push_time ≡ time
      → IsReady g
      → value 32 g.last_rand_chars + n < capacity g.last_rand_chars
      → AllAbove (layout time g.last_rand_chars) (burst n time draws g)
        × Ascending (burst n time draws g)
  burst_lem zero g e r h = rw burst-zero (tt, tt)
  burst_lem (suc n) g e r h = rw (burst-suc n g e r.sixteen) (
      let (above, ascending) =
        burst_lem n next e ready
          (omega (arith, value-increment rs r.below room, capacity-increment rs)) in
      let up = layout_ascends time rs r.sixteen r.below room in
      ((up, AllAbove-trans _ _ _ up above), (above, ascending)))
    where
      rs : List ℕ
      rs = g.last_rand_chars

      room : full rs ≡ false
      room = not-full rs (omega arith)

      next : Globals
      next = record g { last_rand_chars = increment rs }

      ready : IsReady next
      ready = record {
        sixteen = length-increment rs ∙ r.sixteen;
        below = increment-AllBelow rs r.below;
      }

capacity-eq : (xs ys : List ℕ) → length xs ≡ length ys → capacity xs ≡ capacity ys
capacity-eq [] [] e = refl
capacity-eq [] (y ∷ ys) e = absurd (omega arith)
capacity-eq (x ∷ xs) [] e = absurd (omega arith)
capacity-eq (x ∷ xs) (y ∷ ys) e = ap (λ c. 32 * c) (capacity-eq xs ys (omega arith))

capacity_sixteen : (rs : List ℕ) → length rs ≡ 16 → capacity rs ≡ 32 ^ 16
capacity_sixteen rs e =
    capacity-eq rs (0 ∷ 0 ∷ 0 ∷ 0 ∷ 0 ∷ 0 ∷ 0 ∷ 0 ∷ 0 ∷ 0 ∷ 0 ∷ 0 ∷ 0 ∷ 0 ∷ 0 ∷ 0 ∷ []) e

-- From sixteen digits below 32, as long as the digits do not run over, the ids of calls within one
-- millisecond are in ascending order as strings, so that no two of them are equal.
pub burst-Ascending :
    (n time : ℕ) (draws : List ℕ) (g : Globals)
    → g.last_push_time ≡ time
    → IsReady g
    → value 32 g.last_rand_chars + n < 32 ^ 16
    → Ascending (burst n time draws g)
burst-Ascending n time draws g e r h =
    (burst_lem time draws n g e r (omega (arith, capacity_sixteen g.last_rand_chars r.sixteen))).1

advance-IsReady :
    (time : ℕ) (draws : List ℕ) (g : Globals)
    → IsReady g
    → length draws ≡ 16
    → AllBelow 32 draws
    → IsReady (advance time draws g)
advance-IsReady time draws g r l b = elim (Bool-cases (time == g.last_push_time)) [
  | inl e ↦ rw e (record {
    sixteen = length-increment g.last_rand_chars ∙ r.sixteen;
    below = increment-AllBelow g.last_rand_chars r.below;
  })
  | inr e ↦ rw e (record { sixteen = l; below = b })
]

-- If the last sixteen digits and the sixteen draws are below 32, so are the next sixteen digits,
-- and the id has 26 characters with dashes at 8 and 17.
pub new_format :
    (time : ℕ) (draws : List ℕ) (g : Globals)
    → IsReady g
    → length draws ≡ 16
    → AllBelow 32 draws
    → IsReady (new time draws g).1
      × (length (new time draws g).0 ≡ 26)
      × (get_elem? (new time draws g).0 8 ≡ some 45)
      × (get_elem? (new time draws g).0 17 ≡ some 45)
new_format time draws g r l b = (
  rw (new-globals time draws g) ready,
  rw written (
      omega (
        arith,
        length-append high (45 ∷ low),
        length-part (drop 8 rs),
        length-part (take 8 rs),
        length-drop 8 rs,
        length-take 8 rs,
        ready.sixteen,
      )),
  rw written refl,
  rw written (
      get_elem?-append_exact 8 high low 45
        (omega (arith, length-part (drop 8 rs), length-drop 8 rs, ready.sixteen))),
)
  where
    rs : List ℕ
    rs = (advance time draws g).last_rand_chars

    high : Text
    high = reverse (chars (drop 8 rs))

    low : Text
    low = reverse (chars (take 8 rs))

    ready : IsReady (advance time draws g)
    ready = advance-IsReady time draws g r l b

    length-part : (ds : List ℕ) → length (reverse (chars ds)) ≡ length ds
    length-part ds = length-reverse (chars ds) ∙ length-map (char_at push_chars) ds

    written : (new time draws g).0 ≡ layout time rs
    written = new_lem time draws g ready.sixteen

-- ===== src/Guid/Order.antt =====
-- The ids of one millisecond ascend, as long as the sixteen digits do not run over.
use mathlib.Core.List.{reverse, reverse-cons}
use native.Mathlib.Decide.{dec_lt}
use repeatr.Base.{
  all_below, all_below_lem, map, take-append_exact, drop-append_exact, ℕ, ◌+◌, ◌*◌, ◌<◌, ◌≡◌, refl,
  sym, ◌∙◌, List, [], ◌∷◌, ◌++◌, Text, arith, ltb, ◌==◌, nat_eq, length, length-reverse, length-map,
  length-take, take, drop, take-append-drop, Bool, true, false, ◌&&◌, Bool-cases, inl, inr,
  text_ltb, text_ltb-append_left, text_ltb-append, value, AllBelow,
}
use repeatr.Guid.{push_chars, char_at, increment}
use repeatr.Guid.Layout.{chars, time_digits, layout}

-- How many values as many digits have.
abbrev pub capacity : List ℕ → ℕ
capacity [] = 1
capacity (c ∷ cs) = 32 * capacity cs

-- Every digit is the highest one.
abbrev pub full : List ℕ → Bool
full [] = true
full (c ∷ cs) = c == 31 && full cs

full-capacity : (ds : List ℕ) → full ds ≡ true → value 32 ds + 1 ≡ capacity ds
full-capacity [] h = refl
full-capacity (c ∷ cs) h = ground (arith, full-capacity cs)

pub not-full : (ds : List ℕ) → value 32 ds + 1 < capacity ds → full ds ≡ false
not-full ds h = ground (arith, full-capacity ds)

pub length-increment : (ds : List ℕ) → length (increment ds) ≡ length ds
unfolding increment
length-increment [] = refl
length-increment (c ∷ cs) = ground (arith, length-increment cs)

pub capacity-increment : (ds : List ℕ) → capacity (increment ds) ≡ capacity ds
unfolding increment
capacity-increment [] = refl
capacity-increment (c ∷ cs) = ground (arith, capacity-increment cs)

pub increment-AllBelow : (ds : List ℕ) → AllBelow 32 ds → AllBelow 32 (increment ds)
unfolding increment
increment-AllBelow [] b = tt
increment-AllBelow (c ∷ cs) b = ground (arith, increment-AllBelow cs b.1)

pub value-increment :
    (ds : List ℕ) → AllBelow 32 ds → full ds ≡ false → value 32 (increment ds) ≡ value 32 ds + 1
unfolding increment
value-increment [] b h = cc
value-increment (c ∷ cs) b h = ground (arith, value-increment cs b.1)

-- Digits, highest first, as characters.
abbrev shown : List ℕ → Text
shown ds = reverse (chars ds)

shown-cons : (c : ℕ) (cs : List ℕ) → shown (c ∷ cs) ≡ shown cs ++ (char_at push_chars c ∷ [])
shown-cons c cs = reverse-cons (char_at push_chars c) (chars cs)

length-shown : (ds : List ℕ) → length (shown ds) ≡ length ds
length-shown ds = length-reverse (chars ds) ∙ length-map (char_at push_chars) ds

chars_table : all_below 31 (λ c. ltb (char_at push_chars c) (char_at push_chars (c + 1))) ≡ true
unfolding all_below
chars_table = refl

chars_ascend : (c : ℕ) → c + 1 < 32 → ltb (char_at push_chars c) (char_at push_chars (c + 1)) ≡ true
chars_ascend c h =
    all_below_lem 31 (λ c. ltb (char_at push_chars c) (char_at push_chars (c + 1))) c chars_table
      (omega arith)

shown_ascend_low :
    (c : ℕ) (cs : List ℕ) → c + 1 < 32 → text_ltb (shown (c ∷ cs)) (shown ((c + 1) ∷ cs)) ≡ true
unfolding text_ltb
shown_ascend_low c cs h =
    rw (shown-cons c cs, shown-cons (c + 1) cs)
      (text_ltb-append_left (shown cs) (char_at push_chars c ∷ []) (char_at push_chars (c + 1) ∷ [])
        ∙ rw (chars_ascend c h) refl)

shown_ascend_high :
    (c d : ℕ) (cs ds : List ℕ)
    → length cs ≡ length ds
    → text_ltb (shown cs) (shown ds) ≡ true
    → text_ltb (shown (c ∷ cs)) (shown (d ∷ ds)) ≡ true
shown_ascend_high c d cs ds e h =
    rw (shown-cons c cs, shown-cons d ds)
      (text_ltb-append (shown cs) (shown ds) (char_at push_chars c ∷ []) (char_at push_chars d ∷ [])
        (length-shown cs ∙ e ∙ sym (length-shown ds)) h)

increment-low : (c : ℕ) (cs : List ℕ) → c + 1 < 32 → increment (c ∷ cs) ≡ (c + 1) ∷ cs
unfolding increment
increment-low c cs h = ground arith

increment-carry : (c : ℕ) (cs : List ℕ) → ¬ (c + 1 < 32) → increment (c ∷ cs) ≡ 0 ∷ increment cs
unfolding increment
increment-carry c cs h = ground arith

increment_ascends :
    (ds : List ℕ)
    → AllBelow 32 ds
    → full ds ≡ false
    → text_ltb (shown ds) (shown (increment ds)) ≡ true
increment_ascends [] b h = cc
increment_ascends (c ∷ cs) b h = elim (dec_lt (c + 1) 32) [
  | yes low ↦ rw (increment-low c cs low) (shown_ascend_low c cs low)
  | no carry ↦ rw (increment-carry c cs carry) (
      shown_ascend_high c 0 cs (increment cs) (sym (length-increment cs))
        (increment_ascends cs b.1 (ground arith)))
]

increment-append_low :
    (lo hi : List ℕ) → AllBelow 32 lo → full lo ≡ false → increment (lo ++ hi) ≡ increment lo ++ hi
unfolding increment
increment-append_low [] hi b h = cc
increment-append_low (c ∷ lo) hi b h = ground (arith, increment-append_low lo hi b.1)

increment-append_high :
    (lo hi : List ℕ) → full lo ≡ true → increment (lo ++ hi) ≡ map (λ _. 0) lo ++ increment hi
unfolding increment
increment-append_high [] hi h = refl
increment-append_high (c ∷ lo) hi h = ground (arith, increment-append_high lo hi)

full-append : (lo hi : List ℕ) → full (lo ++ hi) ≡ (full lo && full hi)
full-append [] hi = refl
full-append (c ∷ lo) hi = ground (arith, full-append lo hi)

AllBelow-append_parts : (lo hi : List ℕ) → AllBelow 32 (lo ++ hi) → AllBelow 32 lo × AllBelow 32 hi
AllBelow-append_parts [] hi b = (tt, b)
AllBelow-append_parts (c ∷ lo) hi b = let (l, h) = AllBelow-append_parts lo hi b.1 in ((b.0, l), h)

abbrev pieces : ℕ → List ℕ → List ℕ → Text
pieces time lo hi = shown (time_digits 8 time) ++ (45 ∷ (shown hi ++ (45 ∷ shown lo)))

layout-append :
    (time : ℕ) (lo hi : List ℕ) → length lo ≡ 8 → layout time (lo ++ hi) ≡ pieces time lo hi
layout-append time lo hi e = rw (take-append_exact 8 lo hi e, drop-append_exact 8 lo hi e)

pieces_ltb :
    (time : ℕ) (lo hi lo' hi' : List ℕ)
    → text_ltb (pieces time lo hi) (pieces time lo' hi')
      ≡ text_ltb (shown hi ++ (45 ∷ shown lo)) (shown hi' ++ (45 ∷ shown lo'))
pieces_ltb time lo hi lo' hi' =
    text_ltb-append_left (shown (time_digits 8 time)) (45 ∷ x) (45 ∷ x')
    ∙ text_ltb-append_left (45 ∷ []) x x'
  where
    x : Text
    x = shown hi ++ (45 ∷ shown lo)

    x' : Text
    x' = shown hi' ++ (45 ∷ shown lo')

-- The two halves, each shown with its highest digit first, ascend.
pieces_ascend :
    (time : ℕ) (lo hi : List ℕ)
    → length lo ≡ 8
    → AllBelow 32 (lo ++ hi)
    → full (lo ++ hi) ≡ false
    → text_ltb (layout time (lo ++ hi)) (layout time (increment (lo ++ hi))) ≡ true
pieces_ascend time lo hi e b h = elim (Bool-cases (full lo)) [
  | inl f ↦ rw (increment-append_high lo hi f) (
      rw
        (
          layout-append time lo hi e,
          layout-append time (map (λ _. 0) lo) (increment hi) (length-map (λ _. 0) lo ∙ e),
          pieces_ltb time lo hi (map (λ _. 0) lo) (increment hi),
        )
        (text_ltb-append (shown hi) (shown (increment hi)) _ _
          (length-shown hi ∙ sym (length-shown (increment hi) ∙ length-increment hi))
          (increment_ascends hi parts.1 (ground (arith, full-append lo hi)))))
  | inr f ↦ rw (increment-append_low lo hi parts.0 f) (
      rw
        (
          layout-append time lo hi e,
          layout-append time (increment lo) hi (length-increment lo ∙ e),
          pieces_ltb time lo hi (increment lo) hi,
        )
        (text_ltb-append_left (shown hi) (45 ∷ shown lo) (45 ∷ shown (increment lo))
          ∙ text_ltb-append_left (45 ∷ []) (shown lo) (shown (increment lo))
          ∙ increment_ascends lo parts.0 f))
]
  where
    parts : AllBelow 32 lo × AllBelow 32 hi
    parts = AllBelow-append_parts lo hi b

-- Sixteen digits whose value is not the highest: the id ascends with the next increment.
pub layout_ascends :
    (time : ℕ) (ds : List ℕ)
    → length ds ≡ 16
    → AllBelow 32 ds
    → full ds ≡ false
    → text_ltb (layout time ds) (layout time (increment ds)) ≡ true
layout_ascends time ds e b h = rw split at (
    pieces_ascend time (take 8 ds) (drop 8 ds) (omega (arith, length-take 8 ds)) (rw split b)
      (rw split h))
  where
    split : take 8 ds ++ drop 8 ds ≡ ds
    split = take-append-drop 8 ds

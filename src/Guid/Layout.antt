-- ===== src/Guid/Layout.antt =====
-- Where the loops of `New` write: the id is the time, the upper half and the lower half of the
-- digits, each with its highest digit first.
use mathlib.Core.List.{reverse, reverse-cons, append_assoc, append-nil, map}
use repeatr.Base.{
  ℕ, zero, suc, ◌+◌, ◌-◌, ◌/◌, ◌%◌, ◌≡◌, refl, sym, ap, ◌∙◌, List, [], ◌∷◌, ◌++◌, Text, arith,
  nat_eq, length, length-append, length-reverse, length-take, length-drop, set, set-append, take,
  drop,
}
use repeatr.Guid.{push_chars, char_at, Globals, fill, fill_time, blank, advance, new}

abbrev pub chars : List ℕ → Text
chars = map (char_at push_chars)

-- The `n` lowest digits, the lowest first.
abbrev pub time_digits : ℕ → ℕ → List ℕ
time_digits zero time = []
time_digits (suc n) time = time % 32 ∷ time_digits n (time / 32)

abbrev pub layout : ℕ → List ℕ → Text
layout time rs =
    reverse (chars (time_digits 8 time))
    ++ (45 ∷ (reverse (chars (drop 8 rs)) ++ (45 ∷ reverse (chars (take 8 rs)))))

fill_time-eq :
    (n at time : ℕ) (id : Text) → fill_time n at time id ≡ fill at (time_digits n time) id
unfolding fill fill_time
fill_time-eq zero at time id = refl
fill_time-eq (suc n) at time id = fill_time-eq n (at - 1) (time / 32) _

set_past :
    (pre mid post : Text) (x v at : ℕ)
    → at ≡ length pre + length mid
    → set (pre ++ (mid ++ (x ∷ post))) at v ≡ pre ++ (mid ++ (v ∷ post))
set_past pre mid post x v at e =
    rw (← append_assoc pre mid (x ∷ post), ← append_assoc pre mid (v ∷ post))
      (rw (e ∙ sym (length-append pre mid)) (set-append (pre ++ mid) post x v))

-- A loop that fills a hole from its end replaces the hole by its characters, in reverse.
fill-hole :
    (cs hs pre post : Text) (at : ℕ)
    → length hs ≡ length cs
    → at ≡ length pre + length cs - 1
    → fill at cs (pre ++ (reverse hs ++ post)) ≡ pre ++ (reverse (chars cs) ++ post)
unfolding fill
fill-hole [] [] pre post at e h = refl
fill-hole [] (x ∷ hs) pre post at e h = absurd (omega arith)
fill-hole (c ∷ cs) [] pre post at e h = absurd (omega arith)
fill-hole (c ∷ cs) (x ∷ hs) pre post at e h =
    let v = char_at push_chars c in
    rw (reverse-cons x hs, reverse-cons v (chars cs))
      (rw
        (
          append_assoc (reverse hs) (x ∷ []) post,
          append_assoc (reverse (chars cs)) (v ∷ []) post,
          set_past pre (reverse hs) post x v at (omega (arith, length-reverse hs)),
        )
        (fill-hole cs hs pre (v ∷ post) (at - 1) (omega arith) (omega arith)))

-- The bytes of the id, for sixteen digits.
pub new_lem :
    (time : ℕ) (draws : List ℕ) (g : Globals)
    → length (advance time draws g).last_rand_chars ≡ 16
    → (new time draws g).0 ≡ layout time (advance time draws g).last_rand_chars
unfolding new
new_lem time draws g e =
    rw (third, second) (fill_time-eq 8 7 time (take 9 blank ++ (high ++ (45 ∷ low))) ∙ first)
  where
    rs : List ℕ
    rs = (advance time draws g).last_rand_chars

    zeros : Text
    zeros = take 8 blank

    low : Text
    low = reverse (chars (take 8 rs))

    high : Text
    high = reverse (chars (drop 8 rs))

    third : fill 25 (take 8 rs) blank ≡ take 18 blank ++ low
    third =
        fill-hole (take 8 rs) zeros (take 18 blank) [] 25 (omega (arith, length-take 8 rs))
          (omega (arith, length-take 8 rs))
        ∙ ap (λ t. take 18 blank ++ t) (append-nil low)

    second : fill 16 (drop 8 rs) (take 18 blank ++ low) ≡ take 9 blank ++ (high ++ (45 ∷ low))
    second =
        fill-hole (drop 8 rs) zeros (take 9 blank) (45 ∷ low) 16 (omega (arith, length-drop 8 rs))
          (omega (arith, length-drop 8 rs))

    first : fill 7 (time_digits 8 time) (take 9 blank ++ (high ++ (45 ∷ low))) ≡ layout time rs
    first = fill-hole (time_digits 8 time) zeros [] (45 ∷ (high ++ (45 ∷ low))) 7 refl (omega arith)

-- ===== src/Iofilter/Chunks.antt =====
-- What a `Reframer` hands on does not depend on how the stream was cut into writes.
use repeatr.Base.{
  ℕ, zero, suc, ◌+◌, ◌≤◌, ◌≡◌, refl, sym, ap, ◌∙◌, true, false, Text, none, some, [], ◌∷◌, ◌++◌,
  ◌==◌, nat_eq, length, length-append, if◌then◌else◌, Bool-cases, inl, inr, arith,
}
use repeatr.Iofilter.{Reframer, newline, framed, cut_line, drain, write}
use mathlib.Core.List.{reverse, reverse-cons, reverse-reverse, append_assoc, append-nil}

-- One byte at a time: a newline ends the line, any other byte is held.
abbrev pub step : ℕ → Reframer → Reframer
step c r =
    if c == newline
    then record r { rem = []; delegate = r.delegate ++ (framed r r.rem ∷ []) }
    else record r { rem = r.rem ++ (c ∷ []) }

unfoldable pub feed : Text → Reframer → Reframer
feed [] r = r
feed (c ∷ b) r = feed b (step c r)

-- No newline is held.
unfoldable pub IsPartial : Text → Type 0
IsPartial [] = Unit
IsPartial (c ∷ p) = ((c == newline) ≡ false) × IsPartial p

IsPartial-append :
    (p : Text) (c : ℕ) → IsPartial p → (c == newline) ≡ false → IsPartial (p ++ (c ∷ []))
unfolding IsPartial
IsPartial-append [] c h e = (e, tt)
IsPartial-append (d ∷ p) c (f, h) e = (f, IsPartial-append p c h e)

cut_line-partial :
    (p line s : Text) → IsPartial p → cut_line line (p ++ s) ≡ cut_line (reverse p ++ line) s
unfolding IsPartial cut_line
cut_line-partial [] line s h = refl
cut_line-partial (c ∷ p) line s (e, h) =
    rw (e, reverse-cons, append_assoc) (cut_line-partial p (c ∷ line) s h)

cut_line-newline :
    (p s : Text) (c : ℕ)
    → IsPartial p
    → (c == newline) ≡ true
    → cut_line [] (p ++ (c ∷ s)) ≡ some (p, s)
cut_line-newline p s c h e =
    cut_line-partial p [] (c ∷ s) h ∙ unfold cut_line in rw (e, append-nil, reverse-reverse) refl

cut_line-none : (p : Text) → IsPartial p → cut_line [] p ≡ none
cut_line-none p h =
    ap (cut_line []) (sym (append-nil p)) ∙ cut_line-partial p [] [] h ∙ unfold cut_line in refl

drain-none : (n : ℕ) (r : Reframer) → IsPartial r.rem → drain n r ≡ r
unfolding drain
drain-none zero r h = refl
drain-none (suc n) r h = rw (cut_line-none r.rem h) refl

drain-line :
    (b : Text) (n c : ℕ) (r : Reframer)
    → IsPartial r.rem
    → (c == newline) ≡ true
    → drain (suc n) (record r { rem = r.rem ++ (c ∷ b) })
      ≡ drain n (record r { rem = b; delegate = r.delegate ++ (framed r r.rem ∷ []) })
unfolding drain
drain-line b n c r h e = rw (cut_line-newline r.rem b c h e) refl

feed-nil : (r : Reframer) → feed [] r ≡ r
unfolding feed
feed-nil r = refl

feed-line :
    (b : Text) (c : ℕ) (r : Reframer)
    → (c == newline) ≡ true
    → feed (c ∷ b) r
      ≡ feed b (record r { rem = []; delegate = r.delegate ++ (framed r r.rem ∷ []) })
unfolding feed
feed-line b c r e = ap (feed b) (rw e refl)

feed-hold :
    (b : Text) (c : ℕ) (r : Reframer)
    → (c == newline) ≡ false
    → feed (c ∷ b) r ≡ feed b (record r { rem = r.rem ++ (c ∷ []) })
unfolding feed
feed-hold b c r e = ap (feed b) (rw e refl)

-- With fuel for each byte, the loop does what one byte at a time does.
drain-feed :
    (b : Text) (n : ℕ) (r : Reframer)
    → IsPartial r.rem
    → length r.rem + length b ≤ n
    → drain n (record r { rem = r.rem ++ b }) ≡ feed b r
drain-feed [] n r h l = rw (append-nil r.rem) (drain-none n r h ∙ sym (feed-nil r))
drain-feed (c ∷ b) zero r h l = absurd (omega arith)
drain-feed (c ∷ b) (suc n) r h l = elim (Bool-cases (c == newline)) [
  | inl a ↦
      drain-line b n c r h a
      ∙ drain-feed b n (record r { rem = []; delegate = r.delegate ++ (framed r r.rem ∷ []) })
          (unfold IsPartial in tt) (omega (arith, l))
      ∙ sym (feed-line b c r a)
  | inr a ↦
      ap (λ held. drain (suc n) (record r { rem = held })) (sym (append_assoc r.rem (c ∷ []) b))
      ∙ drain-feed b (suc n) (record r { rem = r.rem ++ (c ∷ []) }) (IsPartial-append r.rem c h a)
          (omega (arith, l, length-append r.rem (c ∷ [])))
      ∙ sym (feed-hold b c r a)
]

-- If no newline is held before it, a write does what its bytes do one at a time: a newline hands on the
-- line that is held, framed, and any other byte is held. The loop's fuel, a unit for each byte held, is enough.
pub write-feed : (b : Text) (r : Reframer) → IsPartial r.rem → write b r ≡ feed b r
unfolding write
write-feed b r h = drain-feed b (length (r.rem ++ b)) r h (omega (arith, length-append r.rem b))

step-IsPartial : (c : ℕ) (r : Reframer) → IsPartial r.rem → IsPartial (step c r).rem
step-IsPartial c r h = elim (Bool-cases (c == newline)) [
  | inl a ↦ rw a (unfold IsPartial in tt)
  | inr a ↦ rw a (IsPartial-append r.rem c h a)
]

feed-IsPartial : (b : Text) (r : Reframer) → IsPartial r.rem → IsPartial (feed b r).rem
unfolding feed
feed-IsPartial [] r h = h
feed-IsPartial (c ∷ b) r h = feed-IsPartial b (step c r) (step-IsPartial c r h)

feed-append : (b c : Text) (r : Reframer) → feed (b ++ c) r ≡ feed c (feed b r)
unfolding feed
feed-append [] c r = refl
feed-append (x ∷ b) c r = feed-append b c (step x r)

-- If no newline is held before them, two writes do what one write of both does, and again no newline is held.
pub write-write :
    (b c : Text) (r : Reframer)
    → IsPartial r.rem
    → (write c (write b r) ≡ write (b ++ c) r) × IsPartial (write c (write b r)).rem
write-write b c r h =
    let held : IsPartial (feed b r).rem = feed-IsPartial b r h in
    rw (write-feed b r h, write-feed c (feed b r) held, write-feed (b ++ c) r h)
      (sym (feed-append b c r), feed-IsPartial c (feed b r) held)

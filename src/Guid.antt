-- ===== src/Guid.antt =====
-- lib/guid/guid.go. The clock and the random source are arguments: `new` takes the time in
-- milliseconds and the sixteen draws that `rnd.Intn(radix)` would make. The mutex makes each call
-- one step, so the globals are a state that each call maps to the next.
pub mod Layout
pub mod Order
pub mod Burst
mod Examples
use repeatr.Base.{
  ℕ, zero, suc, ◌+◌, ◌-◌, ◌/◌, ◌%◌, List, [], ◌∷◌, Text, str, ltb, ◌==◌, nat_eq, if◌then◌else◌, set,
  take, drop,
}

abbrev pub push_chars : Text
push_chars = str "0123456789abcdefghkmnopqrstvwxyz"

-- `pushChars[n]`; out of range it panics, which `n < 32` rules out.
abbrev pub char_at : Text → ℕ → ℕ
char_at [] i = 0
char_at (c ∷ cs) zero = c
char_at (c ∷ cs) (suc i) = char_at cs i

-- `lastPushTimeMs` and `lastRandChars`
pub record Globals : Type 0 where
  pub last_push_time : ℕ
  pub last_rand_chars : List ℕ

-- The loop that increments `lastRandChars`, the lowest digit first.
unfoldable pub increment : List ℕ → List ℕ
increment [] = []
increment (c ∷ cs) = let rest = increment cs in if ltb (c + 1) 32 then (c + 1) ∷ cs else 0 ∷ rest

-- A loop that fills `id` downwards from the index `at`.
unfoldable pub fill : ℕ → List ℕ → Text → Text
fill at [] id = id
fill at (c ∷ cs) id = fill (at - 1) cs (set id at (char_at push_chars c))

-- The loop over the time: `n` rounds, downwards from the index `at`.
unfoldable pub fill_time : ℕ → ℕ → ℕ → Text → Text
fill_time zero at time id = id
fill_time (suc n) at time id =
    fill_time n (at - 1) (time / 32) (set id at (char_at push_chars (time % 32)))

-- `var id [size]byte` with its two dashes.
abbrev pub blank : Text
blank =
    0 ∷ 0 ∷ 0 ∷ 0 ∷ 0 ∷ 0 ∷ 0 ∷ 0 ∷ 45 ∷ 0 ∷ 0 ∷ 0 ∷ 0 ∷ 0 ∷ 0 ∷ 0 ∷ 0 ∷ 45 ∷ 0 ∷ 0 ∷ 0 ∷ 0 ∷ 0 ∷ 0
    ∷ 0 ∷ 0 ∷ []

-- The globals when the id is written.
abbrev pub advance : ℕ → List ℕ → Globals → Globals
advance time draws g =
    if time == g.last_push_time
    then record g { last_rand_chars = increment g.last_rand_chars }
    else record { last_push_time = time; last_rand_chars = draws }

-- `New`
unfoldable pub new : ℕ → List ℕ → Globals → Text × Globals
unfolding fill fill_time
new time draws g =
    let g' = advance time draws g in
    let third = fill 25 (take 8 g'.last_rand_chars) blank in
    let second = fill 16 (drop 8 g'.last_rand_chars) third in (fill_time 8 7 time second, g')

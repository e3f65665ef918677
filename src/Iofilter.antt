-- ===== src/Iofilter.antt =====
-- lib/iofilter/indenter.go: the `Reframer`, which hands a stream on line by line. `bufio.ScanLines` is Go's own.
pub mod Chunks
mod Examples
use repeatr.Base.{
  ℕ, zero, suc, ◌-◌, Bool, true, false, ◌&&◌, not, Text, Option, none, some, List, [], ◌∷◌, ◌++◌,
  ◌==◌, nat_eq, length, drop, if◌then◌else◌,
}
use mathlib.Core.List.{reverse}

-- '\n' and '\r'
abbrev pub newline : ℕ
newline = 10

abbrev carriage : ℕ
carriage = 13

abbrev drop_first_cr : Text → Text
drop_first_cr [] = []
drop_first_cr (c ∷ s) = if c == carriage then s else c ∷ s

-- The line without a carriage return at its end.
abbrev drop_cr : Text → Text
drop_cr s = reverse (drop_first_cr (reverse s))

-- Up to the first newline, and what is after it; the line so far is reversed.
unfoldable pub cut_line : Text → Text → Option (Text × Text)
cut_line line [] = none
cut_line line (c ∷ s) =
    let rest = cut_line (c ∷ line) s in if c == newline then some (reverse line, s) else rest

-- `type Reframer struct`, with what its delegate was given.
pub record Reframer : Type 0 where
  pub prefix : Text
  pub suffix : Text
  pub rem : Text
  pub delegate : List Text

abbrev pub framed : Reframer → Text → Text
framed r line = r.prefix ++ drop_cr line ++ r.suffix

-- `LinePrefixingWriter`
abbrev pub line_prefixing_writer : Text → Reframer
line_prefixing_writer prefix = record {
  prefix = prefix;
  suffix = newline ∷ [];
  rem = [];
  delegate = [];
}

-- `LineBufferingWriter`
abbrev pub line_buffering_writer : Reframer
line_buffering_writer = line_prefixing_writer []

-- `LineIndentingWriter`
abbrev pub line_indenting_writer : Reframer
line_indenting_writer = line_prefixing_writer (9 ∷ [])

-- `LineFlankingWriter`
abbrev pub line_flanking_writer : Text → Text → Reframer
line_flanking_writer prefix suffix = record {
  prefix = prefix;
  suffix = suffix ++ (newline ∷ []);
  rem = [];
  delegate = [];
}

abbrev after_cut : Reframer → (Reframer → Reframer) → Option (Text × Text) → Reframer
after_cut r loop none = r
after_cut r loop (some (line, rest)) =
    loop (record r { rem = rest; delegate = r.delegate ++ (framed r line ∷ []) })

-- The loop of `Write`, on fuel for each byte that is left.
unfoldable pub drain : ℕ → Reframer → Reframer
unfolding cut_line
drain zero r = r
drain (suc n) r = after_cut r (drain n) (cut_line [] r.rem)

-- `Reframer.Write`
unfoldable pub write : Text → Reframer → Reframer
unfolding drain
write b r = let held = record r { rem = r.rem ++ b } in drain (length held.rem) held

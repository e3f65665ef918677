-- ===== src/Base58/RoundTrip.antt =====
-- Encoding and decoding undo one another, and an encoding is alphanumeric.
use mathlib.Core.List.{reverse, reverse-cons, reverse-append, map-append, append_assoc}
use mathlib.Core.List.{reverse_aux}
use repeatr.Base.{
  value, AllBelow, ℕ, zero, suc, ◌+◌, ◌*◌, ◌≡◌, refl, sym, ap, ◌∙◌, List, [], ◌∷◌, ◌++◌, arith,
  nat_eq, map, Text, some, none, true, Option-cases, inl, inr,
}
use repeatr.Base58.{
  alphabet, set_bytes, digits, bytes, leading, replicate, char_at, index_any, b58encode,
  decode_loop, b58decode,
}
use repeatr.Base58.Alphabet.{is_alphanumeric, text_of, index_any-char_at, char_at-ne, alphabet_at}
use repeatr.Base58.Recompose.{
  compose-AllBelow, recompose, compose, leading-compose, value-compose, reverse-replicate,
  AllBelow-reverse,
}

map-reverse : (ds : List ℕ) → text_of (reverse ds) ≡ reverse (text_of ds)
map-reverse [] = refl
map-reverse (d ∷ ds) =
    rw reverse-cons
      (rw map-append (rw (map-reverse ds) (sym (reverse-cons (char_at alphabet d) (text_of ds)))))

leading-text_of : (ds : List ℕ) → AllBelow 58 ds → leading 49 (text_of ds) ≡ leading 0 ds
unfolding nat_eq
leading-text_of [] b = refl
leading-text_of (zero ∷ ds) b = ap suc (leading-text_of ds b.1)
leading-text_of (suc d ∷ ds) b = ground (arith, char_at-ne (suc d))

replicate-text_of : (n : ℕ) → text_of (replicate n 0) ≡ replicate n 49
replicate-text_of zero = refl
replicate-text_of (suc n) = ap (λ r. 49 ∷ r) (replicate-text_of n)

decode_loop-text_of :
    (a j : ℕ) (ds : List ℕ)
    → AllBelow 58 ds
    → decode_loop a j (text_of ds) ≡ some (a + j * value 58 ds)
unfolding decode_loop
decode_loop-text_of a j [] b = ap some (grind arith)
decode_loop-text_of a j (d ∷ ds) b =
    rw (index_any-char_at d b.0, decode_loop)
      (decode_loop-text_of (a + j * d) (j * 58) ds b.1 ∙ ap some (grind arith))

set_bytes-value : (ds bs : List ℕ) → set_bytes (value 256 ds) bs ≡ value 256 (reverse_aux bs ds)
set_bytes-value ds [] = refl
set_bytes-value ds (b ∷ bs) = ap (λ x. set_bytes x bs) (omega arith) ∙ set_bytes-value (b ∷ ds) bs

-- Decoding any text over the alphabet: its leading `1`s as zero bytes, then the bytes of its value.
b58decode-text_of :
    (ds : List ℕ)
    → AllBelow 58 ds
    → b58decode (text_of ds) ≡ compose 256 (leading 0 ds) (value 58 (reverse ds))
unfolding b58decode
b58decode-text_of ds b =
    rw (decoded, b58decode) (ap (λ n. replicate n 0 ++ bytes v) (leading-text_of ds b))
  where
    v : ℕ
    v = value 58 (reverse ds)

    decoded : decode_loop 0 1 (reverse (text_of ds)) ≡ some v
    decoded =
        rw (← map-reverse ds)
          (decode_loop-text_of 0 1 (reverse ds) (AllBelow-reverse 58 ds b) ∙ ap some (omega arith))

-- An encoding is the text of the composed digits.
b58encode-text_of :
    (b : List ℕ) → b58encode b ≡ text_of (compose 58 (leading 0 b) (value 256 (reverse b)))
unfolding b58encode
b58encode-text_of b = rw (set_bytes-value [] b) (
    rw (reverse-append (text_of (digits 58 v v)) (replicate n 49)) (
      rw (map-append (char_at alphabet) (replicate n 0) (reverse (digits 58 v v)))
        (rw (reverse-replicate, replicate-text_of, map-reverse) refl)))
  where
    n : ℕ
    n = leading 0 b

    v : ℕ
    v = value 256 (reverse b)

-- Decoding the encoding of any bytes gives the bytes back.
pub b58decode-b58encode : (b : List ℕ) → AllBelow 256 b → b58decode (b58encode b) ≡ b
b58decode-b58encode b h = rw (b58encode-text_of b) (
    rw (b58decode-text_of (compose 58 n v) (compose-AllBelow 58 (omega arith) n v)) (
      rw (leading-compose 58 (omega arith) n v, value-compose 58 (omega arith) n v)
        (recompose 256 (omega arith) b h)))
  where
    n : ℕ
    n = leading 0 b

    v : ℕ
    v = value 256 (reverse b)

-- Encoding what any text over the alphabet decodes to gives the text back.
pub b58encode-b58decode :
    (ds : List ℕ)
    → AllBelow 58 ds
    → b58encode (b58decode (map (char_at alphabet) ds)) ≡ map (char_at alphabet) ds
b58encode-b58decode ds h = rw (b58decode-text_of ds h) (
    rw (b58encode-text_of (compose 256 n v)) (
      rw (leading-compose 256 (omega arith) n v, value-compose 256 (omega arith) n v)
        (ap text_of (recompose 58 (omega arith) ds h))))
  where
    n : ℕ
    n = leading 0 ds

    v : ℕ
    v = value 58 (reverse ds)

abbrev pub AllAlphanumeric : Text → Type 0
AllAlphanumeric [] = Unit
AllAlphanumeric (c ∷ cs) = (is_alphanumeric c ≡ true) × AllAlphanumeric cs

text_of-AllAlphanumeric : (ds : List ℕ) → AllBelow 58 ds → AllAlphanumeric (text_of ds)
text_of-AllAlphanumeric [] b = tt
text_of-AllAlphanumeric (d ∷ ds) b =
    (ground (arith, alphabet_at d b.0), text_of-AllAlphanumeric ds b.1)

-- An encoding has letters and digits only.
pub b58encode-AllAlphanumeric : (b : List ℕ) → AllAlphanumeric (b58encode b)
b58encode-AllAlphanumeric b = rw (b58encode-text_of b) (
    text_of-AllAlphanumeric (compose 58 (leading 0 b) (value 256 (reverse b)))
      (compose-AllBelow 58 (omega arith) (leading 0 b) (value 256 (reverse b))))

decode_loop-foreign :
    (a j : ℕ) (xs ys : Text) (c : ℕ)
    → index_any alphabet c ≡ none
    → decode_loop a j (xs ++ (c ∷ ys)) ≡ none
unfolding decode_loop
decode_loop-foreign a j [] ys c e = rw (e, decode_loop)
decode_loop-foreign a j (x ∷ xs) ys c e = elim (Option-cases (index_any alphabet x)) [
  | inl absent ↦ rw (absent, decode_loop)
  | inr (i, found) ↦ rw (found, decode_loop) (decode_loop-foreign (a + j * i) (j * 58) xs ys c e)
]

-- A text with a character outside the alphabet decodes to nothing.
pub b58decode-foreign :
    (before after : Text) (c : ℕ)
    → index_any alphabet c ≡ none
    → b58decode (before ++ (c ∷ after)) ≡ []
unfolding b58decode
b58decode-foreign before after c e = rw (stops, b58decode)
  where
    stops : decode_loop 0 1 (reverse (before ++ (c ∷ after))) ≡ none
    stops =
        rw (reverse-append before (c ∷ after), reverse-cons c after)
          (rw append_assoc (decode_loop-foreign 0 1 (reverse after) (reverse before) c e))

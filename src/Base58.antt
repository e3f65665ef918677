-- ===== src/Base58.antt =====
-- api/def/base58.go. A `big.Int` that is not negative is a native number.
pub mod Digits
mod Recompose
pub mod Alphabet
pub mod RoundTrip
mod Examples
use mathlib.Core.Option
use mathlib.Core.List.{reverse}
use repeatr.Base.{
  ℕ, zero, suc, ◌+◌, ◌*◌, ◌/◌, ◌%◌, Option, none, some, List, [], ◌∷◌, ◌++◌, map, Text, str, Bool,
  ◌==◌, nat_eq, if◌then◌else◌, get_elem?, length,
}

abbrev pub alphabet : Text
alphabet = str "123456789ABCDEFGHJKLMNPQRSTUVWXYZabcdefghijkmnopqrstuvwxyz"

-- `x.SetBytes(b)`, from the bytes that were read before.
abbrev pub set_bytes : ℕ → List ℕ → ℕ
set_bytes x [] = x
set_bytes x (b ∷ bs) = set_bytes (x * 256 + b) bs

-- The loop of `b58encode`, the digits from the lowest; `f` rounds are enough where x ≤ f.
unfoldable pub digits : ℕ → ℕ → ℕ → List ℕ
digits base zero x = []
digits base (suc f) x =
    let rest = digits base f (x / base) in if x == 0 then [] else (x % base) ∷ rest

-- `x.Bytes()`: big-endian, with no leading zero.
abbrev pub bytes : ℕ → List ℕ
bytes x = reverse (digits 256 x x)

-- How often `a` stands at the front: `numZeros`, and the loop over leading zero bytes.
abbrev pub leading : ℕ → List ℕ → ℕ
leading a [] = 0
leading a (b ∷ bs) = if b == a then suc (leading a bs) else 0

abbrev pub replicate : ℕ → ℕ → List ℕ
replicate zero a = []
replicate (suc n) a = a ∷ replicate n a

-- `alphabet[i]`; out of range it panics, which a remainder by 58 rules out.
abbrev pub char_at : Text → ℕ → ℕ
char_at [] i = 0
char_at (c ∷ cs) zero = c
char_at (c ∷ cs) (suc i) = char_at cs i

-- `strings.IndexAny(alphabet, string(b))` for one byte; `none` is -1.
abbrev pub index_any : Text → ℕ → Option ℕ
index_any [] b = none
index_any (c ∷ cs) b = if c == b then some 0 else Option.map suc (index_any cs b)

-- `b58encode`
unfoldable pub b58encode : List ℕ → Text
unfolding digits
b58encode b =
    let x = set_bytes 0 b in
    reverse (map (char_at alphabet) (digits 58 x x) ++ replicate (leading 0 b) 49)

-- The loop of `b58decode`, over the characters from the last one, with its two big integers.
-- `none` is the return of an empty slice at a character outside the alphabet.
unfoldable pub decode_loop : ℕ → ℕ → Text → Option ℕ
decode_loop answer j [] = some answer
decode_loop answer j (c ∷ cs) = elim (index_any alphabet c) [
  | none ↦ none
  | some idx ↦ decode_loop (answer + j * idx) (j * 58) cs
]

-- `b58decode`
unfoldable pub b58decode : Text → List ℕ
unfolding decode_loop digits
b58decode b = elim (decode_loop 0 1 (reverse b)) [
  | none ↦ []
  | some answer ↦ replicate (leading 49 b) 0 ++ bytes answer
]

-- ===== src/Base58/Alphabet.antt =====
-- The alphabet, digit by digit: an index is found again, and every character is alphanumeric.
use mathlib.Core.Option.{some-injective}
use repeatr.Base.{
  all_below, all_below_lem, ℕ, ◌<◌, ◌≡◌, ◌≢◌, refl, sym, ap, ◌∙◌, List, arith, ◌==◌, nat_eq, map,
  Text, Option, some, none, Bool, true, false, ◌&&◌, ◌||◌, leb,
}
use repeatr.Base58.{alphabet, char_at, index_any}

abbrev is_index : Option ℕ → ℕ → Bool
is_index none d = false
is_index (some i) d = i == d

abbrev pub is_alphanumeric : ℕ → Bool
is_alphanumeric c = leb 48 c && leb c 57 || leb 65 c && leb c 90 || leb 97 c && leb c 122

alphabet_table :
    all_below 58 (λ d.
      is_index (index_any alphabet (char_at alphabet d)) d && is_alphanumeric (char_at alphabet d))
    ≡ true
unfolding all_below nat_eq
alphabet_table = refl

pub alphabet_at :
    (d : ℕ)
    → d < 58
    → (is_index (index_any alphabet (char_at alphabet d)) d && is_alphanumeric (char_at alphabet d))
      ≡ true
alphabet_at d h =
    all_below_lem 58
      (λ d.
        is_index (index_any alphabet (char_at alphabet d)) d
        && is_alphanumeric (char_at alphabet d))
      d alphabet_table h

abbrev pub text_of : List ℕ → Text
text_of = map (char_at alphabet)

pub index_any-char_at : (d : ℕ) → d < 58 → index_any alphabet (char_at alphabet d) ≡ some d
index_any-char_at d h = found (index_any alphabet (char_at alphabet d)) (alphabet_at d h)
  where
    found :
        (o : Option ℕ) → (is_index o d && is_alphanumeric (char_at alphabet d)) ≡ true → o ≡ some d
    found none e = cc
    found (some i) e = ground arith

pub char_at-ne : (d : ℕ) → d < 58 → d ≢ 0 → char_at alphabet d ≢ 49
unfolding nat_eq
char_at-ne d h n e =
    n (some-injective d 0 (sym (index_any-char_at d h) ∙ ap (index_any alphabet) e ∙ first))
  where
    first : index_any alphabet 49 ≡ some 0
    first = refl

-- ===== src/Filters/Examples.antt =====
-- The theorems on filters at concrete ones, with numbers written in unary.
use repeatr.Base.{
  ℕ, zero, suc, ℤ, pos, negsuc, true, Option, none, some, List, [], ◌∷◌, ◌++◌, Text, str, text_eq,
  nat_eq, ◌==◌, if◌then◌else◌, ◌≡◌, refl, ap, arith, length,
}
use repeatr.Formula.{Filters, filter_use, filter_keep, Time}
use repeatr.Filters.{zero_filters, as_string_slice, from_string_slice}
use repeatr.Filters.RoundTrip.{graphic, is_word, normal, from_string_slice-as_string_slice}

abbrev ones : ℕ → Text
ones zero = []
ones (suc n) = 49 ∷ ones n

abbrev itoa : ℤ → Text
itoa (pos n) = 43 ∷ ones n
itoa (negsuc n) = 45 ∷ ones n

abbrev atoi : Text → Option ℤ
atoi [] = none
atoi (c ∷ cs) =
    if c == 43 then some (pos (length cs)) else if c == 45 then some (negsuc (length cs)) else none

abbrev before : Text → Text
before [] = []
before (c ∷ cs) = if c == 32 then [] else c ∷ before cs

abbrev after : Text → Text
after [] = []
after (c ∷ cs) = if c == 32 then cs else after cs

abbrev fields : Text → List Text
fields t = before t ∷ after t ∷ []

abbrev parse_date : List Text → Option Time
parse_date _ = none

length-ones : (n : ℕ) → length (ones n) ≡ n
length-ones zero = refl
length-ones (suc n) = ap suc (length-ones n)

atoi-itoa : (n : ℤ) → atoi (itoa n) ≡ some n
unfolding nat_eq
atoi-itoa (pos n) = ap (λ k. some (pos k)) (length-ones n)
atoi-itoa (negsuc n) = ap (λ k. some (negsuc k)) (length-ones n)

atoi-keep : atoi (str "keep") ≡ none
unfolding nat_eq
atoi-keep = refl

graphic-ones : (n : ℕ) → graphic (ones n) ≡ true
graphic-ones zero = refl
graphic-ones (suc n) = ground (arith, graphic-ones n)

itoa-is_word : (n : ℤ) → is_word (itoa n) ≡ true
itoa-is_word (pos n) = ground (arith, graphic-ones n)
itoa-is_word (negsuc n) = ground (arith, graphic-ones n)

before-append : (a b : Text) → graphic a ≡ true → before (a ++ (32 ∷ b)) ≡ a
before-append [] b h = ground arith
before-append (c ∷ cs) b h = ground (arith, before-append cs b)

after-append : (a b : Text) → graphic a ≡ true → after (a ++ (32 ∷ b)) ≡ b
after-append [] b h = ground arith
after-append (c ∷ cs) b h = ground (arith, after-append cs b)

fields_two :
    (a b : Text) → is_word a ≡ true → is_word b ≡ true → fields (a ++ (32 ∷ b)) ≡ a ∷ b ∷ []
fields_two a b h k = ground (arith, before-append a b, after-append a b)

abbrev filters : Filters
filters = record zero_filters { uid_mode = filter_use; uid = pos 3; mtime_mode = filter_keep }

from_string_slice-as_string_slice_example :
    from_string_slice itoa atoi fields parse_date
      (str "uid +111" ∷ str "mtime keep" ∷ [])
      zero_filters
    ≡ some (normal filters)
unfolding as_string_slice
from_string_slice-as_string_slice_example =
    from_string_slice-as_string_slice itoa atoi fields parse_date atoi-itoa atoi-keep itoa-is_word
      fields_two filters 3 0 (str "uid +111" ∷ str "mtime keep" ∷ []) refl refl refl

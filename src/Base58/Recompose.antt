-- ===== src/Base58/Recompose.antt =====
-- A list of digits is its leading zeros and the digits of its value.
use mathlib.Core.List.{
  reverse, reverse-cons, reverse-reverse, reverse-append, append_assoc, append-nil,
}
use repeatr.Base.{
  value, AllBelow, ℕ, zero, suc, ◌+◌, ◌*◌, ◌<◌, ◌≡◌, ◌≢◌, refl, ap, ◌∙◌, List, [], ◌∷◌, ◌++◌, arith,
  ◌==◌, nat_eq, if◌then◌else◌,
}
use repeatr.Base58.{digits, leading, replicate}
use repeatr.Base58.Digits.{highest, digits-value, value-digits, highest-digits, digits-AllBelow}

abbrev pub strip : ℕ → List ℕ → List ℕ
strip a [] = []
strip a (x ∷ xs) = if x == a then strip a xs else x ∷ xs

pub leading-strip : (a : ℕ) (xs : List ℕ) → replicate (leading a xs) a ++ strip a xs ≡ xs
leading-strip a [] = refl
leading-strip a (x ∷ xs) = ground (arith, leading-strip a xs)

pub AllBelow-append :
    (base : ℕ) (xs ys : List ℕ) → AllBelow base xs → AllBelow base ys → AllBelow base (xs ++ ys)
AllBelow-append base [] ys b c = c
AllBelow-append base (x ∷ xs) ys b c = (b.0, AllBelow-append base xs ys b.1 c)

pub AllBelow-reverse : (base : ℕ) (xs : List ℕ) → AllBelow base xs → AllBelow base (reverse xs)
AllBelow-reverse base [] b = tt
AllBelow-reverse base (x ∷ xs) b =
    rw reverse-cons
      (AllBelow-append base (reverse xs) (x ∷ []) (AllBelow-reverse base xs b.1) (b.0, tt))

AllBelow-strip : (base a : ℕ) (xs : List ℕ) → AllBelow base xs → AllBelow base (strip a xs)
AllBelow-strip base a [] b = tt
AllBelow-strip base a (x ∷ xs) b = ground (arith, AllBelow-strip base a xs b.1)

highest-append_one : (e x : ℕ) (xs : List ℕ) → highest e (xs ++ (x ∷ [])) ≡ x
highest-append_one e x [] = refl
highest-append_one e x (y ∷ xs) = highest-append_one y x xs

highest-reverse : (e x : ℕ) (xs : List ℕ) → highest e (reverse (x ∷ xs)) ≡ x
highest-reverse e x xs = rw reverse-cons (highest-append_one e x (reverse xs))

highest-strip : (e a : ℕ) (xs : List ℕ) → e ≢ a → highest e (reverse (strip a xs)) ≢ a
highest-strip e a [] n = n
highest-strip e a (x ∷ xs) n = ground (arith, highest-strip e a xs, highest-reverse e x xs)

pub leading-eq-zero : (e a : ℕ) (xs : List ℕ) → highest e (reverse xs) ≢ a → leading a xs ≡ 0
leading-eq-zero e a [] n = refl
leading-eq-zero e a (x ∷ xs) n = ground (arith, highest-reverse e x xs)

pub leading-replicate-append :
    (a n : ℕ) (xs : List ℕ) → leading a xs ≡ 0 → leading a (replicate n a ++ xs) ≡ n
leading-replicate-append a zero xs h = h
leading-replicate-append a (suc n) xs h = ground (arith, leading-replicate-append a n xs h)

replicate-append_one : (a n : ℕ) → replicate n a ++ (a ∷ []) ≡ a ∷ replicate n a
replicate-append_one a zero = refl
replicate-append_one a (suc n) = ap (λ r. a ∷ r) (replicate-append_one a n)

pub reverse-replicate : (a n : ℕ) → reverse (replicate n a) ≡ replicate n a
reverse-replicate a zero = refl
reverse-replicate a (suc n) =
    rw (reverse-cons a (replicate n a)) (rw (reverse-replicate a n) (replicate-append_one a n))

-- `n` zeros and the digits of `v`, the highest first.
abbrev pub compose : ℕ → ℕ → ℕ → List ℕ
compose base n v = replicate n 0 ++ reverse (digits base v v)

module _ (base : ℕ) (two : 1 < base) where
  value-append_zero : (xs : List ℕ) → value base (xs ++ (0 ∷ [])) ≡ value base xs
  value-append_zero [] = grind arith
  value-append_zero (x ∷ xs) = ap (λ v. x + base * v) (value-append_zero xs)

  value-reverse_zero :
      (x : ℕ) (xs : List ℕ) → x ≡ 0 → value base (reverse (x ∷ xs)) ≡ value base (reverse xs)
  value-reverse_zero x xs z = rw (reverse-cons x xs) (rw z (value-append_zero (reverse xs)))

  value-strip : (xs : List ℕ) → value base (reverse xs) ≡ value base (reverse (strip 0 xs))
  value-strip [] = refl
  value-strip (x ∷ xs) = ground (arith, value-strip xs, value-reverse_zero x xs)

  -- The digits of the value of `ds`, with the leading zeros of `ds` before them, are `ds`.
  pub recompose :
      (ds : List ℕ)
      → AllBelow base ds
      → let v = value base (reverse ds) in compose base (leading 0 ds) v ≡ ds
  recompose ds b =
      let s = strip 0 ds in
      let kept : digits base (value base (reverse s)) (value base (reverse s)) ≡ reverse s =
        digits-value base two (value base (reverse s)) 1 (reverse s)
          (AllBelow-reverse base s (AllBelow-strip base 0 ds b))
          (highest-strip 1 0 ds (omega arith)) (omega arith) in
      rw (value-strip ds) (rw kept (rw reverse-reverse (leading-strip 0 ds)))

  value-append_zeros : (xs : List ℕ) (n : ℕ) → value base (xs ++ replicate n 0) ≡ value base xs
  value-append_zeros xs zero = rw append-nil refl
  value-append_zeros xs (suc n) =
      rw (← append_assoc xs (0 ∷ []) (replicate n 0))
        (value-append_zeros (xs ++ (0 ∷ [])) n ∙ value-append_zero xs)

  zeros-AllBelow : (n : ℕ) → AllBelow base (replicate n 0)
  zeros-AllBelow zero = tt
  zeros-AllBelow (suc n) = (omega arith, zeros-AllBelow n)

  module _ (n v : ℕ) where
    pub leading-compose : leading 0 (compose base n v) ≡ n
    leading-compose = leading-replicate-append 0 n (reverse (digits base v v)) (
        leading-eq-zero 1 0 (reverse (digits base v v))
          (rw reverse-reverse (highest-digits base two v v 1 (omega arith) (λ z. omega arith))))

    pub value-compose : value base (reverse (compose base n v)) ≡ v
    value-compose = rw (reverse-append (replicate n 0) (reverse (digits base v v))) (
        rw (reverse-reverse, reverse-replicate 0 n)
          (value-append_zeros (digits base v v) n ∙ value-digits base two v v (omega arith)))

    pub compose-AllBelow : AllBelow base (compose base n v)
    compose-AllBelow =
        AllBelow-append base (replicate n 0) (reverse (digits base v v)) (zeros-AllBelow n)
          (AllBelow-reverse base (digits base v v) (digits-AllBelow base two v v))

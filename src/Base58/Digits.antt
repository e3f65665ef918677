-- ===== src/Base58/Digits.antt =====
-- Digits in any base: the digits of a number have its value, and the value of digits without a
-- leading zero has these digits.
use native.Mathlib.Nat.{
  add-mul-mod_self_left, add-mul-div_left, mod-eq_of_lt, div-eq_of_lt, div-lt_self, mod-add-div,
  mod-lt, mul-zero,
}
use native.Mathlib.Decide.{ℕ_discrete}
use repeatr.Base.{
  value, AllBelow, ℕ, zero, suc, ◌+◌, ◌*◌, ◌/◌, ◌%◌, ◌≤◌, ◌<◌, ◌≡◌, ◌≢◌, refl, sym, ap, ◌∙◌, List,
  [], ◌∷◌, arith, nat_eq,
}
use repeatr.Base58.{digits}

-- The highest digit, `e` if there is none.
abbrev pub highest : ℕ → List ℕ → ℕ
highest e [] = e
highest e (d ∷ ds) = highest d ds

module _ (base : ℕ) (two : 1 < base) where
  le-mul : (v : ℕ) → v ≤ base * v
  le-mul v = grind arith

  div-lt : (x f : ℕ) → x ≢ 0 → x ≤ suc f → x / base ≤ f
  div-lt x f n h = let shrinks : x / base < x = div-lt_self (omega arith) two in omega arith

  mod-value : (d v : ℕ) → d < base → (d + base * v) % base ≡ d
  mod-value d v h = add-mul-mod_self_left d base v ∙ mod-eq_of_lt h

  div-value : (d v : ℕ) → d < base → (d + base * v) / base ≡ v
  div-value d v h = add-mul-div_left d v (omega arith) ∙ omega (arith, div-eq_of_lt h)

  rest-ne-zero : (x : ℕ) → x ≢ 0 → x / base ≡ 0 → x % base ≢ 0
  rest-ne-zero x n z r = n (sym (mod-add-div x base) ∙ rw (z, r) (omega (arith, mul-zero base)))

  digits-zero : (f : ℕ) → digits base f 0 ≡ []
  unfolding digits nat_eq
  digits-zero zero = refl
  digits-zero (suc f) = refl

  digits-suc : (f x : ℕ) → x ≢ 0 → digits base (suc f) x ≡ x % base ∷ digits base f (x / base)
  unfolding digits
  digits-suc f x n = ground arith

  pub value-digits : (f x : ℕ) → x ≤ f → value base (digits base f x) ≡ x
  unfolding digits
  value-digits zero x h = omega arith
  value-digits (suc f) x h =
      ground (arith, value-digits f (x / base), div-lt x f, mod-add-div x base)

  pub digits-AllBelow : (f x : ℕ) → AllBelow base (digits base f x)
  unfolding digits
  digits-AllBelow zero x = tt
  digits-AllBelow (suc f) x = ground (arith, digits-AllBelow f (x / base), mod-lt x {m = base})

  pub highest-digits : (f x e : ℕ) → x ≤ f → (x ≡ 0 → e ≢ 0) → highest e (digits base f x) ≢ 0
  unfolding digits
  highest-digits zero x e h n = n (omega arith)
  highest-digits (suc f) x e h n = elim (ℕ_discrete x 0) [
    | yes z ↦ rw (z, digits-zero (suc f)) (n z)
    | no z ↦
        rw (digits-suc f x z)
          (highest-digits f (x / base) (x % base) (div-lt x f z h) (rest-ne-zero x z))
  ]

  pub highest_of_value-zero : (e : ℕ) (ds : List ℕ) → highest e ds ≢ 0 → value base ds ≡ 0 → e ≢ 0
  highest_of_value-zero e [] n z = n
  highest_of_value-zero e (d ∷ ds) n z =
      absurd (highest_of_value-zero d ds n (omega (arith, le-mul (value base ds))) (omega arith))

  pub digits-value :
      (f e : ℕ) (ds : List ℕ)
      → AllBelow base ds
      → highest e ds ≢ 0
      → value base ds ≤ f
      → digits base f (value base ds) ≡ ds
  digits-value f e [] b n h = digits-zero f
  digits-value zero e (d ∷ ds) b n h =
      absurd (highest_of_value-zero d ds n (omega (arith, le-mul (value base ds))) (omega arith))
  digits-value (suc f) e (d ∷ ds) b n h = elim (ℕ_discrete (d + base * value base ds) 0) [
    | yes z ↦
        absurd (highest_of_value-zero d ds n (omega (arith, le-mul (value base ds))) (omega arith))
    | no z ↦
        let v = value base ds in
        let smaller : v ≤ f = rw (div-value d v b.0) at (div-lt (d + base * v) f z h) in
        rw (digits-suc f (d + base * v) z, mod-value d v b.0, div-value d v b.0)
          (ap (λ r. d ∷ r) (digits-value f d ds b.1 n smaller))
  ]

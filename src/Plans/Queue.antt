-- ===== src/Plans/Queue.antt =====
-- The loops over the queue, by what they leave in it.
use mathlib.Core.Option
use repeatr.Base.{
  ℕ, zero, suc, ◌≡◌, refl, true, false, Option, none, some, List, [], ◌∷◌, ◌++◌, arith, ◌==◌,
  contains, nat_eq, text_eq, if◌then◌else◌, get_elem?, length,
}
use repeatr.Plans.{Plan, replace_first, next_leasable, cut_first}

-- No address is queued twice.
abbrev pub Distinct : List ℕ → Type 0
Distinct [] = Unit
Distinct (p ∷ queue) = (contains queue p ≡ false) × Distinct queue

pub contains-append_one :
    (queue : List ℕ) (p q : ℕ)
    → contains (queue ++ (p ∷ [])) q ≡ (if p == q then true else contains queue q)
contains-append_one [] p q = ground arith
contains-append_one (x ∷ queue) p q = ground (arith, contains-append_one queue p q)

pub append_one-Distinct :
    (queue : List ℕ) (p : ℕ)
    → Distinct queue
    → contains queue p ≡ false
    → Distinct (queue ++ (p ∷ []))
append_one-Distinct [] p d h = (refl, tt)
append_one-Distinct (x ∷ queue) p d h =
    ground (arith, append_one-Distinct queue p d.1, contains-append_one queue p x)

-- The queue with `p` in the place of the first `old`.
abbrev pub replaced : ℕ → ℕ → List ℕ → List ℕ
replaced old p [] = []
replaced old p (x ∷ queue) = if x == old then p ∷ queue else x ∷ replaced old p queue

pub replace_first-eq :
    (old p : ℕ) (queue : List ℕ)
    → contains queue old ≡ true
    → replace_first old p queue ≡ some (replaced old p queue)
unfolding replace_first
replace_first-eq old p [] m = cc
replace_first-eq old p (x ∷ queue) m = ground (arith, replace_first-eq old p queue)

pub contains-replaced :
    (old p q : ℕ) (queue : List ℕ)
    → Distinct queue
    → contains queue old ≡ true
    → contains (replaced old p queue) q
      ≡ (if p == q then true else if old == q then false else contains queue q)
contains-replaced old p q [] d m = cc
contains-replaced old p q (x ∷ queue) d m = ground (arith, contains-replaced old p q queue d.1)

pub replaced-Distinct :
    (old p : ℕ) (queue : List ℕ)
    → Distinct queue
    → contains queue old ≡ true
    → contains queue p ≡ false
    → Distinct (replaced old p queue)
replaced-Distinct old p [] d m h = tt
replaced-Distinct old p (x ∷ queue) d m h =
    ground (arith, replaced-Distinct old p queue d.1, contains-replaced old p x queue d.1)

map-absent :
    (old p i : ℕ) (queue : List ℕ)
    → contains queue old ≡ false
    → get_elem? queue i ≡ Option.map (λ q. if q == old then p else q) (get_elem? queue i)
map-absent old p i [] h = refl
map-absent old p zero (x ∷ queue) h = ground arith
map-absent old p (suc i) (x ∷ queue) h = map-absent old p i queue (ground arith)

pub get_elem?-replaced :
    (old p i : ℕ) (queue : List ℕ)
    → Distinct queue
    → get_elem? (replaced old p queue) i
      ≡ Option.map (λ q. if q == old then p else q) (get_elem? queue i)
get_elem?-replaced old p i [] d = refl
get_elem?-replaced old p zero (x ∷ queue) d = ground arith
get_elem?-replaced old p (suc i) (x ∷ queue) d =
    ground (arith, get_elem?-replaced old p i queue d.1, map-absent old p i queue)

pub length-replaced : (old p : ℕ) (queue : List ℕ) → length (replaced old p queue) ≡ length queue
length-replaced old p [] = refl
length-replaced old p (x ∷ queue) = ground (arith, length-replaced old p queue)

pub contains-cut_first :
    (p q : ℕ) (queue : List ℕ)
    → Distinct queue
    → contains (cut_first p queue) q ≡ (if p == q then false else contains queue q)
unfolding cut_first
contains-cut_first p q [] d = ground arith
contains-cut_first p q (x ∷ queue) d = ground (arith, contains-cut_first p q queue d.1)

pub cut_first-Distinct : (p : ℕ) (queue : List ℕ) → Distinct queue → Distinct (cut_first p queue)
unfolding cut_first
cut_first-Distinct p [] d = tt
cut_first-Distinct p (x ∷ queue) d =
    ground (arith, cut_first-Distinct p queue d.1, contains-cut_first p x queue d.1)

module _ (heap : ℕ → Plan) where
  -- The first plan in line that has no lease.
  abbrev pub first_free : List ℕ → Option ℕ
  first_free [] = none
  first_free (p ∷ queue) = if (heap p).leased_as == [] then some p else first_free queue

  abbrev pub at : List ℕ → Option ℕ → Option ℕ
  at queue none = none
  at queue (some i) = get_elem? queue i

  pub at-next_leasable : (queue : List ℕ) → at queue (next_leasable heap queue) ≡ first_free queue
  unfolding next_leasable
  at-next_leasable [] = refl
  at-next_leasable (p ∷ queue) = ground (arith, at-next_leasable queue)

  pub first_free_lem :
      (queue : List ℕ) (p : ℕ)
      → first_free queue ≡ some p
      → (contains queue p ≡ true) × ((heap p).leased_as ≡ [])
  first_free_lem [] p e = cc
  first_free_lem (x ∷ queue) p e = ground (arith, first_free_lem queue p)

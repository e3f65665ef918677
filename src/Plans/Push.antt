-- ===== src/Plans/Push.antt =====
-- What `Push` does to the queue and its index, and the case in which the index of commissions loses
-- a plan that still waits.
use mathlib.Core.Option
use repeatr.Base.{
  ℕ, ◌≡◌, refl, ◌≢◌, inl, inr, ap, true, false, none, some, [], ◌∷◌, ◌++◌, Text, arith, ◌==◌,
  contains, nat_eq, text_eq, get_elem?, if◌then◌else◌, length, Option-cases,
}
use repeatr.Base.Dict.{lookup, insert, lookup-insert, lookup-erase}
use repeatr.Plans.{Plans, push, enqueue, push_over, lease, lease_next}
use repeatr.Plans.Queue.{
  replaced, replace_first-eq, length-replaced, get_elem?-replaced, contains-append_one,
  contains-replaced,
}
use repeatr.Plans.Invariant.{IsValid}
use repeatr.Plans.Laws.{lease_next-lease}

pub push-new :
    (p : ℕ) (ps : Plans)
    → lookup (ps.heap p).commissioned_by ps.commission_index ≡ none
    → push p ps ≡ enqueue p ps
unfolding push
push-new p ps e = rw (e, push)

pub push-known :
    (p old : ℕ) (ps : Plans)
    → IsValid ps
    → lookup (ps.heap p).commissioned_by ps.commission_index ≡ some old
    → push p ps ≡ push_over p ps (some (replaced old p ps.queue))
unfolding push
push-known p old ps v e =
    rw (e, push)
      (rw (replace_first-eq old p ps.queue (v.offered (ps.heap p).commissioned_by old e).0) refl)

-- In a valid queue, `Push` of a plan whose commission has an older plan in the index: the queue keeps its length, and
-- every position keeps its plan, but that the new plan stands where the older one stood. The new
-- plan is then the one in the index.
pub push-replaces :
    (p old : ℕ) (ps : Plans)
    → IsValid ps
    → lookup (ps.heap p).commissioned_by ps.commission_index ≡ some old
    → (contains ps.queue old ≡ true)
      × (length (push p ps).queue ≡ length ps.queue)
      × ((i : ℕ)
          → get_elem? (push p ps).queue i
            ≡ Option.map (λ q. if q == old then p else q) (get_elem? ps.queue i))
      × (lookup (ps.heap p).commissioned_by (push p ps).commission_index ≡ some p)
push-replaces p old ps v e = rw (push-known p old ps v e) (
  (v.offered c old e).0,
  length-replaced old p ps.queue,
  λ i. get_elem?-replaced old p i ps.queue v.distinct,
  ground (arith, lookup-insert c c p ps.commission_index),
)
  where
    c : Text
    c = (ps.heap p).commissioned_by

module _ (p : ℕ) (ps : Plans) (v : IsValid ps) where
  pub push-commission_index :
      (push p ps).commission_index ≡ insert (ps.heap p).commissioned_by p ps.commission_index
  push-commission_index =
      elim (Option-cases (lookup (ps.heap p).commissioned_by ps.commission_index)) [
        | inl e ↦ rw (push-new p ps e) refl
        | inr (old, e) ↦ rw (push-known p old ps v e) refl
      ]

  pub push-heap : (push p ps).heap ≡ ps.heap
  push-heap = elim (Option-cases (lookup (ps.heap p).commissioned_by ps.commission_index)) [
    | inl e ↦ rw (push-new p ps e) refl
    | inr (old, e) ↦ rw (push-known p old ps v e) refl
  ]

  pub contains-push :
      (q : ℕ) → q ≢ p → contains ps.queue q ≡ false → contains (push p ps).queue q ≡ false
  contains-push q other absent =
      elim (Option-cases (lookup (ps.heap p).commissioned_by ps.commission_index)) [
        | inl e ↦ rw (push-new p ps e) (ground (arith, contains-append_one ps.queue p q))
        | inr (old, e) ↦
            rw (push-known p old ps v e)
              (ground (arith, contains-replaced old p q ps.queue v.distinct (v.offered _ old e).0))
      ]

-- In a valid queue, a plan `p` whose commission has by now a younger plan `q` in the index, never leased and still
-- queued: when `LeaseNext` hands out `p`, the index loses `q`, and the next plan `r` of the
-- commission is queued behind `q` instead of taking its place.
pub lease_next-forgets :
    (token : Text) (ps : Plans) (p q r : ℕ)
    → IsValid ps
    → (lease_next token ps).1 ≡ some p
    → lookup (ps.heap p).commissioned_by ps.commission_index ≡ some q
    → q ≢ p
    → r ≢ p
    → (ps.heap r).commissioned_by ≡ (ps.heap p).commissioned_by
    → ((ps.heap q).leased_as ≡ [])
      × (contains ps.queue q ≡ true)
      × ((push r (lease_next token ps).0).queue ≡ ps.queue ++ (r ∷ []))
lease_next-forgets token ps p q r v given younger other new same =
    (listed.2, listed.0, rw (lease_next-lease token ps p given) pushed)
  where
    c : Text
    c = (ps.heap p).commissioned_by

    listed :
        (contains ps.queue q ≡ true)
        × ((ps.heap q).commissioned_by ≡ c)
        × ((ps.heap q).leased_as ≡ [])
    listed = v.offered c q younger

    pushed : (push r (lease token p ps)).queue ≡ ps.queue ++ (r ∷ [])
    pushed =
        ap (λ qs. Plans.queue qs)
          (push-new r (lease token p ps) (ground (arith, lookup-erase c c ps.commission_index)))

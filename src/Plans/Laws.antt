-- ===== src/Plans/Laws.antt =====
-- What leasing, returning and completing do to the queue.
use mathlib.Core.Path.{fun_ext}
use repeatr.Base.{
  ℕ, ◌≡◌, refl, ◌≢◌, ◌↔◌, inl, inr, ap, false, none, some, List, [], ◌∷◌, ◌++◌, Text, arith, ◌==◌,
  contains, nat_eq, text_eq, if◌then◌else◌, Option-cases, Bool-cases,
}
use repeatr.Base.Dict.{lookup, erase, lookup-insert, lookup-erase}
use repeatr.Plans.{Plan, Plans, assign, lease, lease_next, unlease, finish, remove}
use repeatr.Plans.Queue.{contains-cut_first, first_free, first_free_lem}
use repeatr.Plans.Invariant.{IsValid, lease_next-eq}

-- Every plan in the list is leased.
abbrev pub AllLeased : (ℕ → Plan) → List ℕ → Type 0
AllLeased heap [] = Unit
AllLeased heap (p ∷ queue) = ((heap p).leased_as ≢ []) × AllLeased heap queue

first_free-split :
    (heap : ℕ → Plan) (queue : List ℕ) (p : ℕ)
    → first_free heap queue ≡ some p
    → (before after : List ℕ) × (queue ≡ before ++ (p ∷ after))
      × AllLeased heap before
      × ((heap p).leased_as ≡ [])
first_free-split heap [] p e = cc
first_free-split heap (x ∷ queue) p e = elim (Bool-cases ((heap x).leased_as == [])) [
  | inl free ↦ ([], queue, ground arith, tt, ground arith)
  | inr busy ↦
      let (before, after, split, all, free) = first_free-split heap queue p (ground arith) in
      (x ∷ before, after, ap (λ q. x ∷ q) split, (ground arith, all), free)
]

first_free-none :
    (heap : ℕ → Plan) (queue : List ℕ) → (first_free heap queue ≡ none) ↔ AllLeased heap queue
first_free-none heap [] = (λ e. tt, λ a. refl)
first_free-none heap (x ∷ queue) = (
  λ e. ground (arith, (first_free-none heap queue).0),
  λ a. ground (arith, (first_free-none heap queue).1),
)

pub lease_next-plan :
    (token : Text) (ps : Plans) → (lease_next token ps).1 ≡ first_free ps.heap ps.queue
lease_next-plan token ps = rw lease_next-eq (ground arith)

pub lease_next-lease :
    (token : Text) (ps : Plans) (p : ℕ)
    → (lease_next token ps).1 ≡ some p
    → (lease_next token ps).0 ≡ lease token p ps
lease_next-lease token ps p given = rw lease_next-eq (ground (arith, lease_next-plan token ps))

-- The plan that `LeaseNext` hands out is the first in line that had no lease. It is then found
-- under the token, and the queue keeps its order.
pub lease_next-first :
    (token : Text) (ps : Plans) (p : ℕ)
    → (lease_next token ps).1 ≡ some p
    → (before after : List ℕ) × (ps.queue ≡ before ++ (p ∷ after))
      × AllLeased ps.heap before
      × ((ps.heap p).leased_as ≡ [])
      × ((lease_next token ps).0.queue ≡ ps.queue)
      × (((lease_next token ps).0.heap p).leased_as ≡ token)
      × (lookup token (lease_next token ps).0.leases_index ≡ some p)
lease_next-first token ps p given =
    let e : first_free ps.heap ps.queue ≡ some p = rw lease_next-plan at given in
    let (before, after, split, all, free) = first_free-split ps.heap ps.queue p e in
    rw lease_next-eq
      (rw e (before, after, split, all, free, refl, ground arith, rw lookup-insert (ground arith)))

-- If `LeaseNext` hands out no plan, then every queued plan is leased, and nothing has changed.
pub lease_next-none :
    (token : Text) (ps : Plans)
    → (lease_next token ps).1 ≡ none
    → AllLeased ps.heap ps.queue × ((lease_next token ps).0 ≡ ps)
lease_next-none token ps given =
    let e : first_free ps.heap ps.queue ≡ none = rw lease_next-plan at given in
    ((first_free-none ps.heap ps.queue).0 e, rw lease_next-eq (rw e refl))

module _ (token : Text) (ps : Plans) where
  unlease-unused : lookup token ps.leases_index ≡ none → unlease token ps ≡ ps
  unfolding unlease
  unlease-unused e = rw (e, unlease)

  finish-unused : lookup token ps.leases_index ≡ none → finish token ps ≡ ps
  unfolding finish
  finish-unused e = rw (e, finish)

  finish-used : (p : ℕ) → lookup token ps.leases_index ≡ some p → finish token ps ≡ remove p ps
  unfolding finish
  finish-used p e = rw (e, finish)

  lookup-unlease : lookup token (unlease token ps).leases_index ≡ none
  unfolding unlease
  lookup-unlease = ground (arith, lookup-erase token token ps.leases_index)

-- In a valid queue, for a token that leases a plan, `Finish` takes this plan, and no other, out of the queue and
-- frees this token, and no other; a later `Unlease` of the token changes nothing.
pub finish-removes :
    (token : Text) (ps : Plans) (p : ℕ)
    → IsValid ps
    → lookup token ps.leases_index ≡ some p
    → ((q : ℕ)
        → contains (finish token ps).queue q ≡ (if p == q then false else contains ps.queue q))
      × ((t : Text)
          → lookup t (finish token ps).leases_index
            ≡ (if token == t then none else lookup t ps.leases_index))
      × (unlease token (finish token ps) ≡ finish token ps)
finish-removes token ps p v e =
    rw (finish-used token ps p e) (members, tokens, unlease-unused token (remove p ps) freed)
  where
    members :
        (q : ℕ) → contains (remove p ps).queue q ≡ (if p == q then false else contains ps.queue q)
    members q = unfold remove in contains-cut_first p q ps.queue v.distinct

    tokens :
        (t : Text)
        → lookup t (remove p ps).leases_index
          ≡ (if token == t then none else lookup t ps.leases_index)
    tokens t = unfold remove in rw (v.held token p e).1 (lookup-erase t token ps.leases_index)

    freed : lookup token (remove p ps).leases_index ≡ none
    freed = ground (arith, tokens token)

-- After `Unlease` the token is free: `Finish` and a second `Unlease` change nothing.
pub finish-unlease :
    (token : Text) (ps : Plans)
    → (finish token (unlease token ps) ≡ unlease token ps)
      × (unlease token (unlease token ps) ≡ unlease token ps)
finish-unlease token ps =
    let free = lookup-unlease token ps in
    (finish-unused token (unlease token ps) free, unlease-unused token (unlease token ps) free)

unlease-used :
    (token : Text) (ps : Plans) (p : ℕ)
    → lookup token ps.leases_index ≡ some p
    → unlease token ps ≡ record ps {
      heap = assign ps.heap p (record (ps.heap p) { leased_as = [] });
      leases_index = erase token ps.leases_index;
    }
unfolding unlease
unlease-used token ps p e = rw (e, unlease)

-- `Unlease` right after `LeaseNext` with an unused token: the queue is as before, no plan has a
-- token that it did not have, and the next `LeaseNext` hands out the same plan.
pub lease_next-unlease :
    (s t : Text) (ps : Plans)
    → lookup s ps.leases_index ≡ none
    → let qs = unlease s (lease_next s ps).0 in
      (qs.queue ≡ ps.queue)
      × ((p : ℕ) → qs.heap p ≡ ps.heap p)
      × ((lease_next t qs).1 ≡ (lease_next s ps).1)
lease_next-unlease s t ps unused =
    let (queue, heap) = kept in
    (
      queue,
      λ p i. heap i p,
      rw (lease_next-plan t (unlease s (lease_next s ps).0))
          (rw (lease_next-plan s ps) (rw (queue, heap) refl)),
    )
  where
    returned :
        (p : ℕ)
        → first_free ps.heap ps.queue ≡ some p
        → ((unlease s (lease s p ps)).queue ≡ ps.queue)
          × ((unlease s (lease s p ps)).heap ≡ ps.heap)
    returned p e =
        rw (unlease-used s (lease s p ps) p (ground (arith, lookup-insert s s p ps.leases_index)))
          (refl, fun_ext (λ q. ground (arith, first_free_lem ps.heap ps.queue p e)))

    kept :
        ((unlease s (lease_next s ps).0).queue ≡ ps.queue)
        × ((unlease s (lease_next s ps).0).heap ≡ ps.heap)
    kept = rw lease_next-eq (elim (Option-cases (first_free ps.heap ps.queue)) [
      | inl e ↦ rw e (rw (unlease-unused s ps unused) (refl, refl))
      | inr (p, e) ↦ rw e (returned p e)
    ])

-- ===== src/Plans/Invariant.antt =====
-- The invariant of the queue and its indexes, and that every operation keeps it.
use repeatr.Base.{
  ℕ, ◌≡◌, ◌≢◌, inl, inr, true, false, none, some, [], Text, arith, ◌==◌, contains, nat_eq, text_eq,
  if◌then◌else◌, Option-cases,
}
use repeatr.Base.Dict.{lookup, lookup-nil, lookup-insert, lookup-erase}
use repeatr.Plans.{
  Plan, Plans, new_plans, enqueue, push_over, push, lease, lease_at, lease_next, unlease, remove,
  finish,
}
use repeatr.Plans.Queue.{
  Distinct, contains-append_one, append_one-Distinct, replaced, replace_first-eq, contains-replaced,
  replaced-Distinct, contains-cut_first, cut_first-Distinct, first_free, at-next_leasable,
  first_free_lem,
}

-- The queue has no plan twice. A queued plan that has a token is found under it, and under a token
-- stands a queued plan that has it. Under a commission stands a queued plan of it with no lease.
pub record IsValid (ps : Plans) : Type 0 where
  pub distinct : Distinct ps.queue
  pub leased :
      (p : ℕ)
      → contains ps.queue p ≡ true
      → (ps.heap p).leased_as ≢ []
      → lookup (ps.heap p).leased_as ps.leases_index ≡ some p
  pub held :
      (t : Text) (p : ℕ)
      → lookup t ps.leases_index ≡ some p
      → (contains ps.queue p ≡ true) × ((ps.heap p).leased_as ≡ t) × (t ≢ [])
  pub offered :
      (c : Text) (p : ℕ)
      → lookup c ps.commission_index ≡ some p
      → (contains ps.queue p ≡ true)
        × ((ps.heap p).commissioned_by ≡ c)
        × ((ps.heap p).leased_as ≡ [])

pub new_plans-IsValid : (heap : ℕ → Plan) → IsValid (new_plans heap)
unfolding new_plans
new_plans-IsValid heap = record {
  distinct = tt;
  leased = λ p m. cc;
  held = λ t p e. cc (lookup-nil {V = ℕ} t);
  offered = λ c p e. cc (lookup-nil {V = ℕ} c);
}

module _ (ps : Plans) (v : IsValid ps) (p : ℕ) where
  module _ (fresh : contains ps.queue p ≡ false) (free : (ps.heap p).leased_as ≡ []) where
    enqueue-IsValid : IsValid (enqueue p ps)
    enqueue-IsValid = record {
      distinct = append_one-Distinct ps.queue p v.distinct fresh;
      leased = λ q m l. ground (arith, contains-append_one ps.queue p q, v.leased q);
      held = λ t q e. ground (arith, contains-append_one ps.queue p q, v.held t q);
      offered = λ c q e. ground (
        arith,
        contains-append_one ps.queue p q,
        v.offered c q,
        lookup-insert c (ps.heap p).commissioned_by p ps.commission_index,
      );
    }

    replace-IsValid :
        (old : ℕ)
        → lookup (ps.heap p).commissioned_by ps.commission_index ≡ some old
        → IsValid (push_over p ps (some (replaced old p ps.queue)))
    replace-IsValid old e = record {
      distinct = ground (
        arith,
        replaced-Distinct old p ps.queue v.distinct,
        v.offered (ps.heap p).commissioned_by old,
      );
      leased = λ q m l. ground (arith, members q, v.leased q);
      held = λ t q h. ground (arith, members q, v.held t q, v.offered c old);
      offered = λ d q h. ground (
        arith,
        members q,
        v.offered d q,
        v.offered c old,
        lookup-insert d c p ps.commission_index,
      );
    }
      where
        c : Text
        c = (ps.heap p).commissioned_by

        members :
            (q : ℕ)
            → contains (replaced old p ps.queue) q
              ≡ (if p == q then true else if old == q then false else contains ps.queue q)
        members q = contains-replaced old p q ps.queue v.distinct (v.offered c old e).0

    -- A queued plan without a lease is in line; one more plan keeps the invariant.
    pub push-IsValid : IsValid (push p ps)
    unfolding push
    push-IsValid = elim (Option-cases (lookup (ps.heap p).commissioned_by ps.commission_index)) [
      | inl e ↦ rw (e, push) enqueue-IsValid
      | inr (old, e) ↦
          rw (e, push)
            (rw (replace_first-eq old p ps.queue (v.offered (ps.heap p).commissioned_by old e).0)
              (replace-IsValid old e))
    ]

module _ (ps : Plans) (v : IsValid ps) (token : Text) where
  -- An unused token, leased on a queued plan without one.
  lease-IsValid :
      (p : ℕ)
      → token ≢ []
      → lookup token ps.leases_index ≡ none
      → contains ps.queue p ≡ true
      → (ps.heap p).leased_as ≡ []
      → IsValid (lease token p ps)
  lease-IsValid p nonempty unused m free = record {
    distinct = v.distinct;
    leased = λ q n l. ground (
      arith,
      v.leased q,
      lookup-insert (ps.heap q).leased_as token p ps.leases_index,
      lookup-insert token token p ps.leases_index,
    );
    held = λ t q h. ground (arith, v.held t q, lookup-insert t token p ps.leases_index);
    offered = λ c q h.
        ground
          (arith, v.offered c q, lookup-erase c (ps.heap p).commissioned_by ps.commission_index);
  }

  pub unlease-IsValid : IsValid (unlease token ps)
  unfolding unlease
  unlease-IsValid = elim (Option-cases (lookup token ps.leases_index)) [
    | inl e ↦ rw (e, unlease) v
    | inr (p, e) ↦
        rw (e, unlease)
          (record {
            distinct = v.distinct;
            leased = λ q n l. ground (
              arith,
              v.leased q,
              v.held token p,
              lookup-erase (ps.heap q).leased_as token ps.leases_index,
            );
            held = λ t q h.
                ground (arith, v.held t q, v.held token p, lookup-erase t token ps.leases_index);
            offered = λ c q h. ground (arith, v.offered c q, v.held token p);
          })
  ]

  finish-IsValid_at : (p : ℕ) → lookup token ps.leases_index ≡ some p → IsValid (remove p ps)
  unfolding remove
  finish-IsValid_at p e = record {
    distinct = cut_first-Distinct p ps.queue v.distinct;
    leased = λ q n l. ground (
      arith,
      v.leased q,
      v.leased p,
      v.held token p,
      contains-cut_first p q ps.queue v.distinct,
      lookup-erase (ps.heap q).leased_as (ps.heap p).leased_as ps.leases_index,
    );
    held = λ t q h. ground (
      arith,
      v.held t q,
      v.held token p,
      contains-cut_first p q ps.queue v.distinct,
      lookup-erase t (ps.heap p).leased_as ps.leases_index,
    );
    offered = λ c q h. ground (
      arith,
      v.offered c q,
      v.held token p,
      contains-cut_first p q ps.queue v.distinct,
      lookup-erase c (ps.heap p).commissioned_by ps.commission_index,
    );
  }

  pub finish-IsValid : IsValid (finish token ps)
  unfolding finish
  finish-IsValid = elim (Option-cases (lookup token ps.leases_index)) [
    | inl e ↦ rw (e, finish) v
    | inr (p, e) ↦ rw (e, finish) (unfold remove in finish-IsValid_at p e)
  ]

-- `LeaseNext` hands out the first plan in line that has no lease.
pub lease_next-eq :
    (token : Text) (ps : Plans)
    → lease_next token ps ≡ lease_at token ps (first_free ps.heap ps.queue)
unfolding lease_next
lease_next-eq token ps = ground (arith, at-next_leasable ps.heap ps.queue)

pub lease_next-IsValid :
    (ps : Plans) (token : Text)
    → IsValid ps
    → token ≢ []
    → lookup token ps.leases_index ≡ none
    → IsValid (lease_next token ps).0
lease_next-IsValid ps token v nonempty unused =
    rw lease_next-eq (elim (Option-cases (first_free ps.heap ps.queue)) [
      | inl e ↦ rw e v
      | inr (p, e) ↦
          let (m, free) = first_free_lem ps.heap ps.queue p e in
          rw e (lease-IsValid ps v token p nonempty unused m free)
    ])

-- ===== src/Plans.antt =====
-- rsrch/actors/foreman/plans.go: the queue of plans and its two indexes. A `*plan` is an address,
-- and `heap` is what stands there. Each operation is a function from the state to the next one.
pub mod Queue
pub mod Invariant
pub mod Life
pub mod Laws
mod Examples
pub mod Push
use mathlib.Core.Option
use repeatr.Base.{
  ℕ, suc, Option, none, some, List, [], ◌∷◌, ◌++◌, Text, ◌==◌, nat_eq, text_eq, if◌then◌else◌,
  get_elem?,
}
use repeatr.Base.Dict.{Dict, lookup, insert, erase}
use repeatr.Formula.{Formula}

-- `type plan struct`
pub record Plan : Type 0 where
  pub formula : Formula
  pub commissioned_by : Text
  pub leased_as : Text

-- `type plans struct`
pub record Plans : Type 0 where
  pub heap : ℕ → Plan
  pub queue : List ℕ
  pub leases_index : Dict Text ℕ
  pub commission_index : Dict Text ℕ

-- A write through a `*plan`.
abbrev pub assign : (ℕ → Plan) → ℕ → Plan → ℕ → Plan
assign heap p v q = if q == p then v else heap q

-- `NewPlans`
unfoldable pub new_plans : (ℕ → Plan) → Plans
new_plans heap = record { heap = heap; queue = []; leases_index = []; commission_index = [] }

-- The loop of `Push`: the first occurrence of `old` becomes `p`, if there is one.
unfoldable pub replace_first : ℕ → ℕ → List ℕ → Option (List ℕ)
replace_first old p [] = none
replace_first old p (qp ∷ queue) =
    let rest = replace_first old p queue in
    if qp == old then some (p ∷ queue) else Option.map (λ q. qp ∷ q) rest

-- The end of `Push`: in line at the back.
abbrev enqueue : ℕ → Plans → Plans
enqueue p ps = record ps {
  queue = ps.queue ++ (p ∷ []);
  commission_index = insert (ps.heap p).commissioned_by p ps.commission_index;
}

abbrev push_over : ℕ → Plans → Option (List ℕ) → Plans
push_over p ps none = enqueue p ps
push_over p ps (some queue) = record ps {
  queue = queue;
  commission_index = insert (ps.heap p).commissioned_by p ps.commission_index;
}

-- `Push`, of the plan that stands at the address `p`.
unfoldable pub push : ℕ → Plans → Plans
push p ps = elim (lookup (ps.heap p).commissioned_by ps.commission_index) [
  | none ↦ enqueue p ps
  | some same ↦ push_over p ps (replace_first same p ps.queue)
]

-- `nextLeasable`: the index of the first plan without a lease; `none` is the source's -1.
unfoldable pub next_leasable : (ℕ → Plan) → List ℕ → Option ℕ
next_leasable heap [] = none
next_leasable heap (p ∷ queue) =
    let rest = next_leasable heap queue in
    if (heap p).leased_as == [] then some 0 else Option.map suc rest

abbrev pub lease : Text → ℕ → Plans → Plans
lease token p ps = record ps {
  heap = assign ps.heap p (record (ps.heap p) { leased_as = token });
  leases_index = insert token p ps.leases_index;
  commission_index = erase (ps.heap p).commissioned_by ps.commission_index;
}

-- `ps.queue[i]`; out of range it panics, which `next_leasable` rules out.
abbrev lease_at : Text → Plans → Option ℕ → Plans × Option ℕ
lease_at token ps none = (ps, none)
lease_at token ps (some p) = (lease token p ps, some p)

-- `LeaseNext`, where `token` is what `guid.New()` returns. The result is the plan, if there is one;
-- the source returns the token with it.
unfoldable pub lease_next : Text → Plans → Plans × Option ℕ
lease_next token ps = elim (next_leasable ps.heap ps.queue) [
  | none ↦ (ps, none)
  | some i ↦ lease_at token ps (get_elem? ps.queue i)
]

-- `Unlease`
unfoldable pub unlease : Text → Plans → Plans
unlease token ps = elim (lookup token ps.leases_index) [
  | none ↦ ps
  | some p ↦ record ps {
    heap = assign ps.heap p (record (ps.heap p) { leased_as = [] });
    leases_index = erase token ps.leases_index;
  }
]

-- The loop of `remove`: the first occurrence of `p` is cut out.
unfoldable pub cut_first : ℕ → List ℕ → List ℕ
cut_first p [] = []
cut_first p (qp ∷ queue) = if qp == p then queue else qp ∷ cut_first p queue

abbrev drop_commission : Text → ℕ → Option ℕ → Dict Text ℕ → Dict Text ℕ
drop_commission c p none index = index
drop_commission c p (some latest) index = if latest == p then erase c index else index

-- `remove`
unfoldable pub remove : ℕ → Plans → Plans
remove p ps = record ps {
  queue = cut_first p ps.queue;
  leases_index = erase (ps.heap p).leased_as ps.leases_index;
  commission_index =
      drop_commission (ps.heap p).commissioned_by p
        (lookup (ps.heap p).commissioned_by ps.commission_index) ps.commission_index;
}

-- `Finish`
unfoldable pub finish : Text → Plans → Plans
unfolding remove
finish token ps = elim (lookup token ps.leases_index) [ none ↦ ps | some p ↦ remove p ps ]

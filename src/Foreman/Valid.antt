-- ===== src/Foreman/Valid.antt =====
-- The invariant of the foreman's plans, and that pushing plans keeps it.
use mathlib.Core.Option
use repeatr.Base.{
  ℕ, ◌≡◌, refl, ◌∙◌, ◌≤◌, inl, inr, false, none, some, [], ◌∷◌, Text, arith, ◌==◌, contains, nat_eq,
  text_eq, Option, Option-cases, Bool-cases, eq-of-==, ap, if◌then◌else◌,
}
use repeatr.Base.Dict.{Dict, lookup, insert, NodupKeys, lookup-nil, lookup-cons, lookup-insert}
use repeatr.Formula.{Formula}
use repeatr.Plans.{Plan, Plans}
use repeatr.Plans.Invariant.{IsValid}
use repeatr.Plans.Life.{allocate, allocate-IsValid, Step-IsValid, pushes}
use repeatr.Plans.Push.{push-commission_index, push-heap, contains-push}
use repeatr.Foreman.{Foreman, push_reason, push_reasons}

-- The queue agrees with its indexes, and no plan is queued at an address that is still to come.
pub record IsReady (man : Foreman) : Type 0 where
  pub plans : IsValid man.current_plans
  pub unused : (p : ℕ) → man.fresh ≤ p → contains man.current_plans.queue p ≡ false

abbrev pub plan_for : Text → Formula → Plan
plan_for reason f = record { formula = f; commissioned_by = reason; leased_as = [] }

-- The plan that the index has for a commission.
abbrev pub planned : Text → Plans → Option Plan
planned id ps = Option.map ps.heap (lookup id ps.commission_index)

module _ (reason : Text) (f : Formula) (man : Foreman) (v : IsReady man) where
  abbrev placed : Plans
  placed = allocate man.fresh (plan_for reason f) man.current_plans

  placed-IsValid : IsValid placed
  placed-IsValid =
      allocate-IsValid man.fresh (plan_for reason f) man.current_plans
        (v.unused man.fresh (ground arith)) v.plans

  pub push_reason-IsReady : IsReady (push_reason reason f man)
  unfolding push_reason
  push_reason-IsReady = record {
    plans =
        Step-IsValid (pushes man.fresh (plan_for reason f) (v.unused man.fresh (ground arith)) refl)
          v.plans;
    unused = λ q le.
        contains-push man.fresh placed placed-IsValid q (ground arith)
          (unfold allocate in v.unused q (ground arith));
  }

  -- Pushing a plan sets what the index has for its commission, and nothing else.
  pub planned-push_reason :
      (id : Text)
      → planned id (push_reason reason f man).current_plans
        ≡ (if reason == id then some (plan_for reason f) else planned id man.current_plans)
  unfolding push_reason allocate
  planned-push_reason id = rw (push-heap man.fresh placed placed-IsValid) (
      rw (push-commission_index man.fresh placed placed-IsValid)
        (elim (Option-cases (lookup id man.current_plans.commission_index)) [
          | inl e ↦ ground (arith, index id, e)
          | inr (q, e) ↦
              ground (arith, index id, e, v.plans.offered id q e, v.unused man.fresh (ground arith))
        ]))
    where
      index :
          (j : Text)
          → lookup j (insert reason man.fresh man.current_plans.commission_index)
            ≡ (if reason == j then some man.fresh else lookup j man.current_plans.commission_index)
      index j = lookup-insert j reason man.fresh man.current_plans.commission_index

-- The plan for a commission's new formula, or else the one that there was.
abbrev pub plan_over : Text → Option Formula → Option Plan → Option Plan
plan_over id none old = old
plan_over id (some f) old = some (plan_for id f)

pub push_reasons-IsReady :
    (reasons : Dict Text Formula) (man : Foreman) → IsReady man → IsReady (push_reasons reasons man)
unfolding push_reasons
push_reasons-IsReady [] man v = v
push_reasons-IsReady ((reason, f) ∷ reasons) man v =
    push_reasons-IsReady reasons (push_reason reason f man) (push_reason-IsReady reason f man v)

plan_over-cons :
    (id reason : Text) (f : Formula) (reasons : Dict Text Formula) (old : Option Plan)
    → lookup reason reasons ≡ none
    → plan_over id (lookup id reasons) (if reason == id then some (plan_for reason f) else old)
      ≡ plan_over id (lookup id ((reason, f) ∷ reasons)) old
plan_over-cons id reason f reasons old new = elim (Bool-cases (reason == id)) [
  | inl same ↦
      let e : reason ≡ id = eq-of-== reason id same in
      let absent : lookup id reasons ≡ none = rw (← e) new in
      rw (lookup-cons, same, absent) (ap (λ r. some (plan_for r f)) e)
  | inr other ↦ rw (lookup-cons, other) refl
]

pub planned-push_reasons :
    (id : Text) (reasons : Dict Text Formula) (man : Foreman)
    → IsReady man
    → NodupKeys reasons
    → planned id (push_reasons reasons man).current_plans
      ≡ plan_over id (lookup id reasons) (planned id man.current_plans)
unfolding push_reasons
planned-push_reasons id [] man v d = rw lookup-nil refl
planned-push_reasons id ((reason, f) ∷ reasons) man v (new, d) =
    planned-push_reasons id reasons (push_reason reason f man) (push_reason-IsReady reason f man v)
      d
    ∙ rw planned-push_reason (plan_over-cons id reason f reasons (planned id man.current_plans) new)

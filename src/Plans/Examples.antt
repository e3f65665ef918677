-- ===== src/Plans/Examples.antt =====
-- The theorems on the queue of plans at concrete queues.
use mathlib.Core.Option
use repeatr.Base.{
  ℕ, ◌≡◌, ◌≢◌, refl, true, false, none, some, List, [], ◌∷◌, ◌++◌, Text, str, arith, ◌==◌, contains,
  nat_eq, text_eq, get_elem?, if◌then◌else◌, length,
}
use repeatr.Base.Dict.{lookup, insert, erase}
use repeatr.Formula.{Formula, Action}
use repeatr.Plans.{
  Plan, Plans, new_plans, replace_first, push, next_leasable, lease_next, unlease, finish,
}
use repeatr.Plans.Invariant.{IsValid}
use repeatr.Plans.Life.{
  allocate, Reach, start, next, pushes, leases, unleases, allocate-IsValid, Reach-IsValid,
  lease_exclusive,
}
use repeatr.Plans.Laws.{AllLeased, lease_next-first, finish-removes}
use repeatr.Plans.Push.{push-replaces, lease_next-forgets}

abbrev no_action : Action
no_action = record {
  entrypoint = [];
  cwd = [];
  env = [];
  hostname = [];
  policy = [];
  cradle = none;
  mounts = [];
}

abbrev no_formula : Formula
no_formula = record { inputs = []; action = no_action; outputs = [] }

abbrev some_plan : Plan
some_plan = record { formula = no_formula; commissioned_by = str "c"; leased_as = [] }

abbrev heap : ℕ → Plan
heap _ = some_plan

abbrev token : Text
token = str "t"

abbrev empty : Plans
empty = new_plans heap

-- One plan in line.
abbrev one : Plans
one = push 0 (allocate 0 some_plan empty)

-- The same, leased.
abbrev busy : Plans
busy = (lease_next token one).0

-- A younger plan of the same commission behind it.
abbrev two : Plans
two = push 1 (allocate 1 some_plan busy)

-- The older plan is given back.
abbrev waiting : Plans
waiting = unlease token two

one≢zero : ◌≢◌ {A = ℕ} 1 0
one≢zero = omega arith

two≢zero : ◌≢◌ {A = ℕ} 2 0
two≢zero = omega arith

Reach-one : Reach heap one
unfolding new_plans
Reach-one = next start (pushes 0 some_plan refl refl)

token≢nil : token ≢ []
token≢nil = ground arith

Reach-busy : Reach heap busy
unfolding new_plans allocate push replace_first next_leasable lease_next unlease lookup insert erase
    text_eq nat_eq
Reach-busy = next Reach-one (leases token token≢nil refl)

Reach-two : Reach heap two
unfolding new_plans allocate push replace_first next_leasable lease_next unlease lookup insert erase
    text_eq nat_eq
Reach-two = next Reach-busy (pushes 1 some_plan refl refl)

Reach-waiting : Reach heap waiting
Reach-waiting = next Reach-two (unleases token)

Reach-IsValid_example : IsValid waiting
Reach-IsValid_example = Reach-IsValid Reach-waiting

lease_exclusive_example : (token ≡ token) × (contains two.queue 0 ≡ true)
unfolding new_plans allocate push replace_first next_leasable lease_next unlease lookup insert erase
    text_eq nat_eq
lease_exclusive_example = lease_exclusive token token 0 Reach-two refl refl

lease_next-first_example :
    (before after : List ℕ) × (two.queue ≡ before ++ (1 ∷ after))
    × AllLeased two.heap before
    × ((two.heap 1).leased_as ≡ [])
    × ((lease_next (str "u") two).0.queue ≡ two.queue)
    × (((lease_next (str "u") two).0.heap 1).leased_as ≡ str "u")
    × (lookup (str "u") (lease_next (str "u") two).0.leases_index ≡ some 1)
unfolding new_plans allocate push replace_first next_leasable lease_next unlease lookup insert erase
    text_eq nat_eq
lease_next-first_example = lease_next-first (str "u") two 1 refl

finish-removes_example :
    ((q : ℕ)
      → contains (finish token two).queue q ≡ (if 0 == q then false else contains two.queue q))
    × ((t : Text)
        → lookup t (finish token two).leases_index
          ≡ (if token == t then none else lookup t two.leases_index))
    × (unlease token (finish token two) ≡ finish token two)
unfolding new_plans allocate push replace_first next_leasable lease_next unlease lookup insert erase
    text_eq nat_eq
finish-removes_example = finish-removes token two 0 (Reach-IsValid Reach-two) refl

-- A plan over the one in line.
abbrev over : Plans
over = allocate 1 some_plan one

over-IsValid : IsValid over
unfolding new_plans allocate push replace_first next_leasable lease_next unlease lookup insert erase
    text_eq nat_eq
over-IsValid = allocate-IsValid 1 some_plan one refl (Reach-IsValid Reach-one)

push-replaces_example :
    (contains over.queue 0 ≡ true)
    × (length (push 1 over).queue ≡ length over.queue)
    × ((i : ℕ)
        → get_elem? (push 1 over).queue i
          ≡ Option.map (λ q. if q == 0 then 1 else q) (get_elem? over.queue i))
    × (lookup (over.heap 1).commissioned_by (push 1 over).commission_index ≡ some 1)
unfolding new_plans allocate push replace_first next_leasable lease_next unlease lookup insert erase
    text_eq nat_eq
push-replaces_example = push-replaces 1 0 over over-IsValid refl

lease_next-forgets_example :
    ((waiting.heap 1).leased_as ≡ [])
    × (contains waiting.queue 1 ≡ true)
    × ((push 2 (lease_next token waiting).0).queue ≡ waiting.queue ++ (2 ∷ []))
unfolding new_plans allocate push replace_first next_leasable lease_next unlease lookup insert erase
    text_eq nat_eq
lease_next-forgets_example =
    lease_next-forgets token waiting 0 1 2 (Reach-IsValid Reach-waiting) refl refl one≢zero two≢zero
      refl

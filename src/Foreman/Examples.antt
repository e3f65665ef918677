-- ===== src/Foreman/Examples.antt =====
-- The theorems on the foreman at a concrete one: a commission that builds with gcc, whose catalog
-- has one product.
use repeatr.Base.{
  ℕ, ◌≡◌, ◌≢◌, refl, sym, ap, subst, ◌∙◌, Option, none, some, [], ◌∷◌, ◌++◌, Text, str, text_eq,
  nat_eq, ◌==◌, if◌then◌else◌, true, false, contains, inl, inr, arith,
}
use repeatr.Base.Dict.{Dict, lookup, NodupKeys, lookup-cons, lookup-nil}
use repeatr.Formula.{Formula, Action, Input, Output}
use repeatr.Catalog.{Book, latest, all}
use repeatr.Cassandra.{Commission, KnowledgeBase, catalog}
use repeatr.Cassandra.Laws.{InValues, uses_any}
use repeatr.Cassandra.Valid.{IsValid}
use repeatr.Plans.{Plan, new_plans, push, next_leasable, lease_next}
use repeatr.Plans.Invariant as Invariant
use repeatr.Plans.Invariant.{new_plans-IsValid}
use repeatr.Plans.Life.{allocate}
use repeatr.Foreman.{
  Foreman, fill, fill_inputs, ready, consider, push_reason, evoke, release_id, book_or_new,
  released, panicked,
}
use repeatr.Foreman.Valid.{IsReady, planned, plan_over, plan_for, push_reason-IsReady}
use repeatr.Foreman.Fill.{latest_input, fill-latest, fill-ready}
use repeatr.Foreman.Pump.{UniqueIds, planned-consider}
use repeatr.Foreman.Releases.{sku}
use repeatr.Foreman.Evoke.{evoke-panicked, evoke-released}

abbrev no_action : Action
no_action = record {
  entrypoint = [];
  cwd = [];
  env = [];
  hostname = [];
  policy = [];
  cradle = none;
  mounts = [];
}

abbrev gcc_input : Text → Input
gcc_input hash = record { kind = str "tar"; hash = hash; warehouses = []; mount_path = str "/" }

abbrev binary : Output
binary = record {
  kind = str "tar";
  hash = str "h2";
  warehouses = [];
  mount_path = str "/out";
  filters = none;
  conjecture = true;
}

abbrev outputs : Dict Text Output
outputs = (str "out", binary) ∷ []

abbrev formula : Text → Formula
formula hash = record {
  inputs = (str "gcc", gcc_input hash) ∷ [];
  action = no_action;
  outputs = [];
}

abbrev commission : Commission
commission = record { id = str "c"; formula = formula [] }

abbrev gcc : Book
gcc = record {
  id = str "gcc";
  tracks = ([], record { kind = str "tar"; hash = str "h1" } ∷ []) ∷ [];
}

abbrev base : KnowledgeBase
base = record {
  commissions = (str "c", commission) ∷ [];
  catalogs = (str "gcc", gcc) ∷ [];
  formulas = [];
  results = [];
  commission_observers = [];
  catalog_observers = 3 ∷ [];
  sent = λ _. [];
}

abbrev heap : ℕ → Plan
heap _ = plan_for [] (formula [])

abbrev man : Foreman
man = record {
  cassy = base;
  ch_new_catalog = 3;
  received = 0;
  ch_old_catalog = str "gcc" ∷ [];
  current_plans = new_plans heap;
  fresh = 0;
}

man-IsReady : IsReady man
unfolding new_plans
man-IsReady = record { plans = new_plans-IsValid heap; unused = λ p le. refl }

base-UniqueIds : UniqueIds base
base-UniqueIds c d (inl e) (inl f) same = e ∙ sym f
base-UniqueIds c d (inl e) (inr f) same = absurd f
base-UniqueIds c d (inr e) m same = absurd e

planned-consider_example :
    planned (str "c") (consider (str "gcc") man).current_plans
    ≡ plan_over (str "c") (fill base (formula [])) (planned (str "c") man.current_plans)
unfolding text_eq
planned-consider_example =
    planned-consider (str "gcc") man commission man-IsReady base-UniqueIds (inl refl) refl

unused_other :
    (d : Commission)
    → InValues d base.commissions
    → d.id ≡ str "other"
    → uses_any (str "gcc" ∷ []) d.formula.inputs ≡ false
unused_other d (inl e) same = let ids : d.id ≡ str "c" = ap (λ x. x.id) e in ground arith
unused_other d (inr e) same = absurd e

fill-latest_example :
    ((formula (str "h1")).action ≡ (formula []).action)
    × ((formula (str "h1")).outputs ≡ (formula []).outputs)
    × (lookup (str "gcc") (formula (str "h1")).inputs
        ≡ latest_input (lookup (str "gcc") (formula []).inputs) (ready (catalog base (str "gcc"))))
unfolding fill fill_inputs catalog latest lookup text_eq
fill-latest_example = fill-latest base (formula []) (formula (str "h1")) (str "gcc") refl

formula-NodupKeys : NodupKeys (formula []).inputs
unfolding lookup
formula-NodupKeys = (refl, tt)

lookup-only :
    {V : Type 0} (j k : Text) (v w : V) → lookup k ((j, v) ∷ []) ≡ some w → (j ≡ k) × (v ≡ w)
lookup-only {V} j k v w e = ground (arith, lookup-cons k j v [], lookup-nil {V = V} k)

gcc_has : ready (catalog base (str "gcc")) ≢ none
unfolding catalog latest lookup text_eq
gcc_has h = ground arith

gcc_ready :
    (n : Text) (i : Input) → lookup n (formula []).inputs ≡ some i → ready (catalog base n) ≢ none
gcc_ready n i e =
    subst (λ m. ready (catalog base m) ≢ none) (lookup-only (str "gcc") n (gcc_input []) i e).0
      gcc_has

fill-ready_example : (g : Formula) × (fill base (formula []) ≡ some g)
fill-ready_example = fill-ready base (formula []) formula-NodupKeys gcc_ready

-- With the plan for the commission in line.
abbrev planning : Foreman
planning = push_reason (str "c") (formula (str "h1")) man

planning-IsValid : Invariant.IsValid planning.current_plans
planning-IsValid = (push_reason-IsReady (str "c") (formula (str "h1")) man man-IsReady).plans

gcc-NodupKeys : NodupKeys gcc.tracks
unfolding lookup
gcc-NodupKeys = (refl, tt)

base-IsValid : IsValid base
unfolding catalog
base-IsValid id b e =
    let (name, book) = lookup-only (str "gcc") id gcc b e in
    (ap (λ x. x.id) (sym book) ∙ name, subst (λ x. NodupKeys x.tracks) book gcc-NodupKeys)

abbrev execute : Formula → Option (Dict Text Output)
execute _ = some outputs

abbrev crash : Formula → Option (Dict Text Output)
crash _ = none

outputs-NodupKeys : NodupKeys outputs
unfolding lookup
outputs-NodupKeys = (refl, tt)

token≢nil : str "t" ≢ []
token≢nil = ground arith

evoke-released_example :
    let id = release_id (planning.current_plans.heap 0).commissioned_by (str "out") in
    let (after, outcome) = evoke (str "t") execute planning in
    (outcome ≡ released)
    × ((q : ℕ)
        → contains after.current_plans.queue q
          ≡ (if 0 == q then false else contains planning.current_plans.queue q))
    × ((b : Book) × (catalog after.cassy id ≡ some b)
        × (latest b ≡ sku binary)
        × (all b ≡ all (book_or_new id (catalog planning.cassy id)) ++ (sku binary ∷ [])))
unfolding push_reason push allocate new_plans lookup lease_next next_leasable text_eq nat_eq
evoke-released_example =
    evoke-released (str "t") execute planning 0 outputs (str "out") binary planning-IsValid
      base-IsValid outputs-NodupKeys token≢nil refl refl refl refl

evoke-panicked_example :
    ((evoke (str "t") crash planning).1 ≡ panicked)
    × ((evoke (str "t") crash planning).0.current_plans.queue ≡ planning.current_plans.queue)
    × ((q : ℕ)
        → (evoke (str "t") crash planning).0.current_plans.heap q ≡ planning.current_plans.heap q)
    × ((evoke (str "t") crash planning).0.cassy ≡ planning.cassy)
unfolding push_reason push allocate new_plans lookup lease_next next_leasable text_eq nat_eq
evoke-panicked_example = evoke-panicked (str "t") crash planning 0 refl refl refl

not_released : (n : Text) → release_id (str "c") n ≢ str "gcc"
not_released n e = ground arith

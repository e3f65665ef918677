-- ===== src/Foreman/Fill.antt =====
-- The fill phase of `pump`, for one formula: what a filled formula is, and when there is one.
use repeatr.Base.{
  ◌≡◌, refl, sym, ap, ◌∙◌, none, some, [], ◌∷◌, Text, arith, text_eq, Option, Option-cases,
  Bool-cases, eq-of-==, ==-refl, ◌≢◌, inl, inr, if◌then◌else◌, ◌==◌,
}
use repeatr.Base.Dict.{Dict, lookup, NodupKeys, lookup-nil, lookup-cons, lookup-cons_fresh}
use repeatr.Formula.{Formula, Input, Ware}
use repeatr.Cassandra.{KnowledgeBase, catalog}
use repeatr.Foreman.{fill, fill_inputs, ready, filled}

-- The input with the hash of the latest product of its catalog.
abbrev pub latest_input : Option Input → Option Ware → Option Input
latest_input none w = none
latest_input (some i) none = none
latest_input (some i) (some w) = some (record i { hash = w.hash })

module _ (kb : KnowledgeBase) where
  lookup-filled :
      (n iname : Text) (i : Input) (w : Option Ware) (rest : Option (Dict Text Input))
      (got : Dict Text Input)
      → filled iname i w rest ≡ some got
      → (more : Dict Text Input) × (ware : Ware) × (w ≡ some ware)
        × (rest ≡ some more)
        × (lookup n got
            ≡ (if iname == n then some (record i { hash = ware.hash }) else lookup n more))
  lookup-filled n iname i none rest got e = ground arith
  lookup-filled n iname i (some w) none got e = ground arith
  lookup-filled n iname i (some w) (some more) got e =
      (more, w, refl, refl, ground (arith, lookup-cons n iname (record i { hash = w.hash }) more))

  filled-some :
      (iname : Text) (i : Input) (w : Option Ware) (rest : Option (Dict Text Input))
      → w ≢ none
      → rest ≢ none
      → filled iname i w rest ≢ none
  filled-some iname i none rest h k = ground arith
  filled-some iname i (some w) none h k = ground arith
  filled-some iname i (some w) (some rest) h k = ground arith

  lookup-fill_inputs :
      (n : Text) (inputs got : Dict Text Input)
      → fill_inputs kb inputs ≡ some got
      → lookup n got ≡ latest_input (lookup n inputs) (ready (catalog kb n))
  unfolding fill_inputs
  lookup-fill_inputs n [] got e =
      let none_left : [] ≡ got = ground arith in rw (← none_left) (rw lookup-nil refl)
  lookup-fill_inputs n ((iname, i) ∷ inputs) got e =
      let (more, w, is_ready, rest, found) =
        lookup-filled n iname i (ready (catalog kb iname)) (fill_inputs kb inputs) got e in
      rw (found, lookup-cons)
        (elim (Bool-cases (iname == n)) [
          | inl same ↦
              let r : ready (catalog kb n) ≡ some w =
                sym (ap (λ x. ready (catalog kb x)) (eq-of-== iname n same)) ∙ is_ready in
              rw (same, r) refl
          | inr other ↦ rw (other) (lookup-fill_inputs n inputs more rest)
        ])

  fill_inputs-ready :
      (inputs : Dict Text Input)
      → NodupKeys inputs
      → ((n : Text) (i : Input) → lookup n inputs ≡ some i → ready (catalog kb n) ≢ none)
      → fill_inputs kb inputs ≢ none
  unfolding fill_inputs
  fill_inputs-ready [] d h = ground arith
  fill_inputs-ready ((iname, i) ∷ inputs) (new, d) h =
      let here : lookup iname ((iname, i) ∷ inputs) ≡ some i = rw (lookup-cons, ==-refl) refl in
      let rest : fill_inputs kb inputs ≢ none =
        fill_inputs-ready inputs d (λ n j e. h n j (lookup-cons_fresh n iname i j inputs new e)) in
      filled-some iname i (ready (catalog kb iname)) (fill_inputs kb inputs) (h iname i here) rest

-- A filled formula has the action and the outputs of the commissioned one. Under each name it has
-- the input of that name with the hash of the latest product of the catalog of that name, where
-- there are both, and else no input.
pub fill-latest :
    (kb : KnowledgeBase) (f g : Formula) (n : Text)
    → fill kb f ≡ some g
    → (g.action ≡ f.action)
      × (g.outputs ≡ f.outputs)
      × (lookup n g.inputs ≡ latest_input (lookup n f.inputs) (ready (catalog kb n)))
unfolding fill
fill-latest kb f g n e = elim (Option-cases (fill_inputs kb f.inputs)) [
  | inl stuck ↦ ground arith
  | inr (got, done) ↦
      let built : record f { inputs = got } ≡ g = ground arith in
      rw (← built) (refl, refl, lookup-fill_inputs kb n f.inputs got done)
]

-- A formula with no input name twice can be filled if every one of its inputs is named after a catalog that has a product.
pub fill-ready :
    (kb : KnowledgeBase) (f : Formula)
    → NodupKeys f.inputs
    → ((n : Text) (i : Input) → lookup n f.inputs ≡ some i → ready (catalog kb n) ≢ none)
    → (g : Formula) × (fill kb f ≡ some g)
unfolding fill
fill-ready kb f d h = elim (Option-cases (fill_inputs kb f.inputs)) [
  | inl stuck ↦ absurd (fill_inputs-ready kb f.inputs d h stuck)
  | inr (got, done) ↦ (record f { inputs = got }, ground arith)
]

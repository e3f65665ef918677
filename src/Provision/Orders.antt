-- ===== src/Provision/Orders.antt =====
-- What provisioning gives, in whichever order the reports arrive.
use repeatr.Base.{
  ◌≡◌, refl, sym, ◌∙◌, ◌⊎◌, inl, inr, Option, none, some, List, [], ◌∷◌, Text, text_eq, arith, ◌==◌,
  ap, Bool-cases, eq-of-==, ==-refl, subst,
}
use repeatr.Base.Dict.{
  Dict, lookup, insert, NodupKeys, lookup-nil, lookup-cons, lookup-insert, lookup-cons_fresh,
}
use repeatr.Formula.{Input}
use repeatr.Provision.{report_input, gather, provision_inputs}

-- The arrivals are the entries of the map in some order.
pub record Orders {In : Type 0} (arrivals inputs : Dict Text In) : Type 0 where
  pub once : NodupKeys arrivals
  pub same : (name : Text) → lookup name arrivals ≡ lookup name inputs

module _ {Error In Out : Type 0} (report : In → Error ⊎ Out) where
  -- The report is this result, or nothing was asked for and there is no result.
  abbrev pub Answers : Option In → Option Out → Type 0
  Answers none arena = arena ≡ none
  Answers (some i) arena = (a : Out) × (report i ≡ inr a) × (arena ≡ some a)

  report-cases : (i : In) → ((e : Error) × (report i ≡ inl e)) ⊎ ((a : Out) × (report i ≡ inr a))
  report-cases i =
      elim (report i) as (λ r. ((e : Error) × (r ≡ inl e)) ⊎ ((a : Out) × (r ≡ inr a))) [
        | inl e ↦ inl (e, refl)
        | inr a ↦ inr (a, refl)
      ]

  module _ (name : Text) (i : In) (arrivals : Dict Text In) (so_far : Dict Text Out) where
    gather-error :
        (e : Error) → report i ≡ inl e → gather report ((name, i) ∷ arrivals) so_far ≡ inl e
    unfolding gather
    gather-error e r = rw (r, gather)

    gather-arena :
        (a : Out)
        → report i ≡ inr a
        → gather report ((name, i) ∷ arrivals) so_far
          ≡ gather report arrivals (insert name a so_far)
    unfolding gather
    gather-arena a r = rw (r, gather)

  gather-nil : (so_far : Dict Text Out) → gather report [] so_far ≡ inr so_far
  unfolding gather
  gather-nil so_far = refl

  gather-absent :
      (name : Text) (arrivals : Dict Text In) (so_far fs : Dict Text Out)
      → lookup name arrivals ≡ none
      → gather report arrivals so_far ≡ inr fs
      → lookup name fs ≡ lookup name so_far
  gather-absent name [] so_far fs absent e =
      let same : so_far ≡ fs = ground (arith, gather-nil so_far) in ap (lookup name) (sym same)
  gather-absent name ((n, i) ∷ arrivals) so_far fs absent e = elim (report-cases i) [
    | inl (error, r) ↦ ground (arith, gather-error n i arrivals so_far error r)
    | inr (a, r) ↦
        let rest : gather report arrivals (insert n a so_far) ≡ inr fs =
          sym (gather-arena n i arrivals so_far a r) ∙ e in
        gather-absent name arrivals (insert n a so_far) fs
          (ground (arith, lookup-cons name n i arrivals)) rest
        ∙ ground (arith, lookup-insert name n a so_far, lookup-cons name n i arrivals)
  ]

  pub gather-Answers :
      (name : Text) (arrivals : Dict Text In) (so_far fs : Dict Text Out)
      → NodupKeys arrivals
      → lookup name so_far ≡ none
      → gather report arrivals so_far ≡ inr fs
      → Answers (lookup name arrivals) (lookup name fs)
  gather-Answers name [] so_far fs d empty e =
      rw lookup-nil (gather-absent name [] so_far fs (lookup-nil {V = In} name) e ∙ empty)
  gather-Answers name ((n, i) ∷ arrivals) so_far fs (new, d) empty e = elim (report-cases i) [
    | inl (error, r) ↦ ground (arith, gather-error n i arrivals so_far error r)
    | inr (a, r) ↦
        let rest : gather report arrivals (insert n a so_far) ≡ inr fs =
          sym (gather-arena n i arrivals so_far a r) ∙ e in
        rw lookup-cons (elim (Bool-cases (n == name)) [
          | inl same ↦
              let absent : lookup name arrivals ≡ none = rw (← eq-of-== n name same) new in
              rw same (
                a,
                r,
                gather-absent name arrivals (insert n a so_far) fs absent rest
                    ∙ ground (arith, lookup-insert name n a so_far),
              )
          | inr other ↦ rw other (
              gather-Answers name arrivals (insert n a so_far) fs d
                (ground (arith, lookup-insert name n a so_far)) rest)
        ])
  ]

  -- Something of the map failed with this error.
  abbrev pub FailedWith : Dict Text In → Error → Type 0
  FailedWith asked e = (name : Text) × (i : In) × (lookup name asked ≡ some i) × (report i ≡ inl e)

  pub gather-FailedWith :
      (arrivals : Dict Text In) (so_far : Dict Text Out) (e : Error)
      → NodupKeys arrivals
      → gather report arrivals so_far ≡ inl e
      → FailedWith arrivals e
  gather-FailedWith [] so_far e d h = ground (arith, gather-nil so_far)
  gather-FailedWith ((n, i) ∷ arrivals) so_far e (new, d) h = elim (report-cases i) [
    | inl (error, r) ↦
        let same : error ≡ e = ground (arith, gather-error n i arrivals so_far error r) in
        (n, i, rw (lookup-cons, ==-refl) refl, rw (← same) r)
    | inr (a, r) ↦
        let rest : gather report arrivals (insert n a so_far) ≡ inl e =
          sym (gather-arena n i arrivals so_far a r) ∙ h in
        let (name, j, found, failed) = gather-FailedWith arrivals (insert n a so_far) e d rest in
        (name, j, lookup-cons_fresh name n i j arrivals new found, failed)
  ]

module _ {Error Arena : Type 0} (materialize : Text → Text → List Text → Error ⊎ Arena) where
  -- When provisioning succeeds, whichever the order of the reports, the filesystem under a name is
  -- what the input of that name was materialized to, and there are no others.
  pub provision_inputs-ready :
      (arrivals inputs : Dict Text Input) (fs : Dict Text Arena) (name : Text)
      → Orders arrivals inputs
      → provision_inputs materialize arrivals ≡ inr fs
      → Answers (report_input materialize) (lookup name inputs) (lookup name fs)
  unfolding provision_inputs
  provision_inputs-ready arrivals inputs fs name o e =
      subst (λ i. Answers (report_input materialize) i (lookup name fs)) (o.same name)
        (gather-Answers (report_input materialize) name arrivals [] fs o.once
          (lookup-nil {V = Arena} name) e)

  -- When provisioning fails, whichever the order of the reports, it is with the error of one of the
  -- inputs.
  pub provision_inputs-failed :
      (arrivals inputs : Dict Text Input) (e : Error)
      → Orders arrivals inputs
      → provision_inputs materialize arrivals ≡ inl e
      → FailedWith (report_input materialize) inputs e
  unfolding provision_inputs
  provision_inputs-failed arrivals inputs e o h =
      let (name, i, found, failed) =
        gather-FailedWith (report_input materialize) arrivals [] e o.once h in
      (name, i, sym (o.same name) ∙ found, failed)

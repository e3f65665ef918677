-- ===== src/Provision/Outputs.antt =====
-- What is kept of the outputs, in whichever order their reports arrive.
use repeatr.Base.{
  ◌≡◌, refl, sym, ap, subst, ◌∙◌, ◌⊎◌, inl, inr, Bool-cases, Option-cases, Option, none, some, List,
  [], ◌∷◌, Text, text_eq, ◌==◌,
}
use repeatr.Base.Dict.{Dict, lookup, NodupKeys, lookup-nil, lookup-cons}
use repeatr.Base.Paths.{path_join}
use repeatr.Formula.{Output, Filters}
use repeatr.Filters.{init_defaults_output}
use repeatr.Rio.{Filter, convert_filter_config}
use repeatr.Provision.{
  Prepared, prepared_with, prepare, gather, saved, report_output, preserve_outputs,
}
use repeatr.Provision.Orders.{Orders, Answers, gather-Answers}
use mathlib.Core.Option.{some-injective, none-ne-some}

-- An output and what its goroutine had of it, or neither.
unfoldable pub Matches : Option Output → Option Prepared → Type 0
Matches none p = p ≡ none
Matches (some out) p = (q : Prepared) × (p ≡ some q) × (prepared_with out out.filters ≡ some q)

module _ (name : Text) (out : Output) (outputs : Dict Text Output) where
  prepare-cons :
      (ps : Dict Text Prepared)
      → prepare ((name, out) ∷ outputs) ≡ some ps
      → (p : Prepared) × (rest : Dict Text Prepared) × (prepared_with out out.filters ≡ some p)
        × (prepare outputs ≡ some rest)
        × (ps ≡ (name, p) ∷ rest)
  unfolding prepare
  prepare-cons ps e = elim (Option-cases (prepared_with out out.filters)) [
    | inl n ↦ absurd (none-ne-some ps (sym (rw n refl) ∙ e))
    | inr (p, q) ↦ elim (Option-cases (prepare outputs)) [
      | inl n ↦ absurd (none-ne-some ps (sym (rw (q, n) refl) ∙ e))
      | inr (rest, r) ↦ (p, rest, q, r, sym (some-injective _ ps (sym (rw (q, r) refl) ∙ e)))
    ]
  ]

prepare-nil : (ps : Dict Text Prepared) → prepare [] ≡ some ps → [] ≡ ps
unfolding prepare
prepare-nil ps e = some-injective [] ps e

prepare-Matches :
    (n : Text) (outputs : Dict Text Output) (ps : Dict Text Prepared)
    → prepare outputs ≡ some ps
    → Matches (lookup n outputs) (lookup n ps)
unfolding Matches
prepare-Matches n [] ps e = rw (← prepare-nil ps e, lookup-nil, lookup-nil) refl
prepare-Matches n ((name, out) ∷ outputs) ps e =
    let (p, rest, prepared, tail, same) = prepare-cons name out outputs ps e in
    rw (same, lookup-cons, lookup-cons)
      (elim (Bool-cases (name == n)) [
        | inl a ↦ rw a (p, refl, prepared)
        | inr a ↦ rw a (prepare-Matches n outputs rest tail)
      ])

prepare-NodupKeys :
    (outputs : Dict Text Output) (ps : Dict Text Prepared)
    → prepare outputs ≡ some ps
    → NodupKeys outputs
    → NodupKeys ps
prepare-NodupKeys [] ps e d = rw (← prepare-nil ps e) tt
prepare-NodupKeys ((name, out) ∷ outputs) ps e (new, d) =
    let (p, rest, prepared, tail, same) = prepare-cons name out outputs ps e in
    let absent : Matches none (lookup name rest) =
      subst (λ o. Matches o (lookup name rest)) new (prepare-Matches name outputs rest tail) in
    rw same (unfold Matches in absent, prepare-NodupKeys outputs rest tail d)

-- What was prepared for an output is its filters with the defaults, and their options.
prepared_with-some :
    (out : Output) (filters : Option Filters) (q : Prepared)
    → prepared_with out filters ≡ some q
    → (f : Filters) × (options : List Filter) × (filters ≡ some f)
      × (convert_filter_config (init_defaults_output f) ≡ some options)
      × (q ≡ record { output = out; filters = init_defaults_output f; options = options })
prepared_with-some out none q e = absurd (none-ne-some q e)
prepared_with-some out (some f) q e =
    elim (Option-cases (convert_filter_config (init_defaults_output f))) [
      | inl n ↦ absurd (none-ne-some q (sym (rw n refl) ∙ e))
      | inr (options, c) ↦ (f, options, refl, c, sym (some-injective _ q (sym (rw c refl) ∙ e)))
    ]

module _ {Error : Type 0} (scan : Text → Text → List Text → List Filter → Error ⊎ Text)
    (rootfs : Text) where
  -- The result is the output with the hash that its path was scanned to under its filters, the defaults
  -- in their place, or there are no output and no result.
  abbrev pub Saved : Option Output → Option Output → Type 0
  Saved none r = r ≡ none
  Saved (some out) r =
      (f : Filters) × (options : List Filter) × (commit : Text) × (out.filters ≡ some f)
      × (convert_filter_config (init_defaults_output f) ≡ some options)
      × (scan out.kind (path_join (rootfs ∷ out.mount_path ∷ [])) out.warehouses options
          ≡ inr commit)
      × (r ≡ some (record out { hash = commit; filters = some (init_defaults_output f) }))

  saved-inr :
      (p : Prepared) (r : Error ⊎ Text) (o : Output)
      → saved scan rootfs p r ≡ inr o
      → (commit : Text) × (r ≡ inr commit)
        × (o ≡ record p.output { hash = commit; filters = some p.filters })
  saved-inr p (inl x) o e = cc
  saved-inr p (inr commit) o e = (commit, refl, cc)

  Saved-report :
      (out : Output) (p : Option Prepared) (r : Option Output)
      → Matches (some out) p
      → Answers (report_output scan rootfs) p r
      → Saved (some out) r
  unfolding Matches
  Saved-report out p r (q, e, prepared) a =
      let (f, options, has, converts, same) = prepared_with-some out out.filters q prepared in
      let (o, reported, result) =
        subst (λ x. Answers (report_output scan rootfs) x r) (e ∙ ap some same) a in
      let ready : Prepared = record {
        output = out;
        filters = init_defaults_output f;
        options = options;
      } in
      let (commit, scanned, saved_as) = saved-inr ready _ o reported in
      (f, options, commit, has, converts, scanned, result ∙ ap some saved_as)

  Saved-Answers :
      (out : Option Output) (p : Option Prepared) (r : Option Output)
      → Matches out p
      → Answers (report_output scan rootfs) p r
      → Saved out r
  unfolding Matches
  Saved-Answers none p r m a = subst (λ x. Answers (report_output scan rootfs) x r) m a
  Saved-Answers (some out) p r m a = Saved-report out p r m a

  -- When `PreserveOutputs` returns, whichever the order of the reports, what it has under a name is the
  -- output of that name with the hash to which its path under the root was scanned, with its filters and the
  -- defaults where there were none; and there are no others.
  pub preserve_outputs-Saved :
      (arrivals outputs results : Dict Text Output) (name : Text)
      → Orders arrivals outputs
      → preserve_outputs scan rootfs arrivals ≡ some (inr results)
      → Saved (lookup name outputs) (lookup name results)
  unfolding preserve_outputs
  preserve_outputs-Saved arrivals outputs results name o e =
      elim (Option-cases (prepare arrivals)) [
        | inl n ↦ absurd (none-ne-some _ (sym (rw n refl) ∙ e))
        | inr (ps, q) ↦
            let gathered : gather (report_output scan rootfs) ps [] ≡ inr results =
              some-injective _ _ (sym (rw q refl) ∙ e) in
            subst (λ x. Saved x (lookup name results)) (o.same name)
              (Saved-Answers (lookup name arrivals) (lookup name ps) (lookup name results)
                (prepare-Matches name arrivals ps q)
                (gather-Answers (report_output scan rootfs) name ps [] results
                  (prepare-NodupKeys arrivals ps q o.once) (lookup-nil {V = Output} name) gathered))
      ]

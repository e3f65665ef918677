-- ===== src/Foreman/Evoke.antt =====
-- What one call of `evoke` does: the three ways in which it ends.
use repeatr.Base.{
  ℕ, ◌≡◌, ◌≢◌, refl, ap, ◌∙◌, false, none, some, [], ◌∷◌, ◌++◌, Text, arith, text_eq, nat_eq,
  Option, if◌then◌else◌, ◌==◌, contains,
}
use repeatr.Base.Dict.{Dict, lookup, NodupKeys}
use repeatr.Formula.{Formula, Output}
use repeatr.Catalog.{Book, latest, all}
use repeatr.Cassandra.{catalog}
use repeatr.Cassandra.Valid.{IsValid}
use repeatr.Plans.{Plans, lease_next, unlease, finish}
use repeatr.Plans.Invariant as Invariant
use repeatr.Plans.Invariant.{lease_next-IsValid}
use repeatr.Plans.Laws.{
  lease_next-first, lease_next-none, lease_next-lease, finish-removes, lease_next-unlease,
}
use repeatr.Foreman.{
  Foreman, idle, panicked, released, release_id, book_or_new, edition, conclude, evoke_leased,
  evoke,
}
use repeatr.Foreman.Releases.{sku, edition_lem, catalog-publish_all, catalog-publish_others}

evoke_leased-some :
    (token : Text) (execute : Formula → Option (Dict Text Output)) (man : Foreman)
    (got : Plans × Option ℕ) (p : ℕ)
    → got.1 ≡ some p
    → evoke_leased token execute man got
      ≡ conclude token
          (got.0.heap p)
          (execute (got.0.heap p).formula)
          (record man { current_plans = got.0 })
evoke_leased-some token execute man (ps, none) p e = ground arith
evoke_leased-some token execute man (ps, some q) p e =
    let same : q ≡ p = ground arith in rw same refl

evoke_leased-none :
    (token : Text) (execute : Formula → Option (Dict Text Output)) (man : Foreman)
    (got : Plans × Option ℕ)
    → got.1 ≡ none
    → evoke_leased token execute man got ≡ (record man { current_plans = got.0 }, idle)
evoke_leased-none token execute man (ps, none) e = refl
evoke_leased-none token execute man (ps, some q) e = ground arith

module _ (token : Text) (execute : Formula → Option (Dict Text Output)) (man : Foreman) where
  abbrev before : Plans
  before = man.current_plans

  abbrev after_lease : Plans
  after_lease = (lease_next token before).0

  evoke-leased :
      (p : ℕ)
      → (lease_next token before).1 ≡ some p
      → evoke token execute man
        ≡ conclude token
            (after_lease.heap p)
            (execute (after_lease.heap p).formula)
            (record man { current_plans = after_lease })
  unfolding evoke
  evoke-leased p e = evoke_leased-some token execute man (lease_next token before) p e

  leased_plan :
      (p : ℕ)
      → (lease_next token before).1 ≡ some p
      → after_lease.heap p ≡ record (before.heap p) { leased_as = token }
  leased_plan p e = rw (lease_next-lease token before p e) (ground arith)

  -- If every queued plan is leased, `evoke` changes nothing.
  pub evoke-idle : (lease_next token before).1 ≡ none → evoke token execute man ≡ (man, idle)
  unfolding evoke
  evoke-idle e =
      evoke_leased-none token execute man (lease_next token before) e
      ∙ ap (λ ps. (record man { current_plans = ps }, idle)) (lease_next-none token before e).1

  -- With a token that is not in use, when a plan is leased: if the executor panics on its formula, the plan goes back: the queue and every
  -- plan are as before the call, and so is the knowledge base.
  pub evoke-panicked :
      (p : ℕ)
      → lookup token before.leases_index ≡ none
      → (lease_next token before).1 ≡ some p
      → execute (before.heap p).formula ≡ none
      → ((evoke token execute man).1 ≡ panicked)
        × ((evoke token execute man).0.current_plans.queue ≡ before.queue)
        × ((q : ℕ) → (evoke token execute man).0.current_plans.heap q ≡ before.heap q)
        × ((evoke token execute man).0.cassy ≡ man.cassy)
  unfolding conclude
  evoke-panicked p unused e fails =
      let (queue, heap, _) = lease_next-unlease token token before unused in
      rw (evoke-leased p e) (rw (leased_plan p e) (rw fails (refl, queue, heap, refl)))

  module _ (p : ℕ) (outputs : Dict Text Output) where
    finished-queue :
        Invariant.IsValid before
        → token ≢ []
        → lookup token before.leases_index ≡ none
        → (lease_next token before).1 ≡ some p
        → (q : ℕ)
        → contains (unlease token (finish token after_lease)).queue q
          ≡ (if p == q then false else contains before.queue q)
    finished-queue v nonempty unused e q =
        let (_, _, _, _, _, queue, _, found) = lease_next-first token before p e in
        let (members, _, same) =
          finish-removes token after_lease p (lease_next-IsValid before token v nonempty unused)
            found in
        rw same (members q ∙ rw queue refl)

    -- From valid plans and a valid knowledge base, with a token that is not empty and not in use, when
    -- a plan is leased: if the executor gives outputs for the leased plan's formula, each name once, the plan is done: it leaves the
    -- queue, and no other plan does. The catalog of each output is the old one, or a new one,
    -- with the product at the end of the default track, where it is the latest.
    pub evoke-released :
        (n : Text) (out : Output)
        → Invariant.IsValid before
        → IsValid man.cassy
        → NodupKeys outputs
        → token ≢ []
        → lookup token before.leases_index ≡ none
        → (lease_next token before).1 ≡ some p
        → execute (before.heap p).formula ≡ some outputs
        → lookup n outputs ≡ some out
        → let id = release_id (before.heap p).commissioned_by n in
          let (after, outcome) = evoke token execute man in
          (outcome ≡ released)
          × ((q : ℕ)
              → contains after.current_plans.queue q
                ≡ (if p == q then false else contains before.queue q))
          × ((b : Book) × (catalog after.cassy id ≡ some b)
              × (latest b ≡ sku out)
              × (all b ≡ all (book_or_new id (catalog man.cassy id)) ++ (sku out ∷ [])))
    unfolding conclude
    evoke-released n out v w d nonempty unused e done found =
        let c = (before.heap p).commissioned_by in
        let (_, last, whole) = edition_lem man.cassy w c n out in
        rw (evoke-leased p e) (
          rw (leased_plan p e) (
            rw done (
              refl,
              finished-queue v nonempty unused e,
              (
                edition man.cassy c n out,
                catalog-publish_all man.cassy w c n outputs man.cassy d ∙ rw found refl,
                last,
                whole,
              ),
            )))

    -- From a valid knowledge base, when the executor gives outputs for the leased plan's formula: a
    -- catalog whose id no output of the plan's commission can have stays as it is.
    pub evoke-others :
        (id : Text)
        → IsValid man.cassy
        → (lease_next token before).1 ≡ some p
        → execute (before.heap p).formula ≡ some outputs
        → ((n : Text) → release_id (before.heap p).commissioned_by n ≢ id)
        → catalog (evoke token execute man).0.cassy id ≡ catalog man.cassy id
    unfolding conclude
    evoke-others id w e done h = rw (evoke-leased p e) (
        rw (leased_plan p e) (
          rw done (
            catalog-publish_others man.cassy w (before.heap p).commissioned_by id outputs man.cassy
              h)))

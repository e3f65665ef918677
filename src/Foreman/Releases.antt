-- ===== src/Foreman/Releases.antt =====
-- What `makeReleases` releases, and what its publication does to the catalogs.
use mathlib.Core.List.{append_cancel_left}
use repeatr.Base.{
  ◌≡◌, ◌≢◌, refl, ap, ◌∙◌, none, some, [], ◌∷◌, ◌++◌, Text, str, arith, text_eq, nat_eq, Option,
  Option-cases, Bool-cases, inl, inr, if◌then◌else◌, ◌==◌, eq-of-==,
}
use repeatr.Base.Dict.{Dict, lookup, NodupKeys, lookup-nil, lookup-cons}
use repeatr.Formula.{Output, Ware}
use repeatr.Catalog.{Book, latest, all}
use repeatr.Catalog.Laws.{release_lem, latest-release}
use repeatr.Cassandra.{KnowledgeBase, catalog, publish_catalog}
use repeatr.Cassandra.Laws.{publish_catalog_lem}
use repeatr.Cassandra.Valid.{IsValid}
use repeatr.Foreman.{release_id, book_or_new, edition, make_releases, publish_all}

release_id-injective : (c m n : Text) → release_id c m ≡ release_id c n → m ≡ n
release_id-injective c m n e = append_cancel_left (c ++ str "::") m n e

abbrev pub sku : Output → Ware
sku out = record { kind = out.kind; hash = out.hash }

module _ (kb : KnowledgeBase) (v : IsValid kb) (c : Text) where
  book-IsValid :
      (id : Text)
      → ((book_or_new id (catalog kb id)).id ≡ id)
        × NodupKeys (book_or_new id (catalog kb id)).tracks
  book-IsValid id = elim (Option-cases (catalog kb id)) [
    | inl e ↦ rw e (refl, tt)
    | inr (b, e) ↦ rw e (v id b e)
  ]

  -- The new edition is for the output's catalog, ends with the product, and has before it what the
  -- catalog had.
  pub edition_lem :
      (n : Text) (out : Output)
      → ((edition kb c n out).id ≡ release_id c n)
        × (latest (edition kb c n out) ≡ sku out)
        × (all (edition kb c n out)
            ≡ all (book_or_new (release_id c n) (catalog kb (release_id c n))) ++ (sku out ∷ []))
  unfolding edition
  edition_lem n out =
      let id = release_id c n in
      let old = book_or_new id (catalog kb id) in
      let (same, nodup) = book-IsValid id in
      let (last, whole) = latest-release (sku out) old nodup in
      ((release_lem [] [] (sku out) old nodup).0 ∙ same, last, whole)

  -- The edition of an output, or else the catalog that there was.
  abbrev pub published : Text → Option Output → Option Book → Option Book
  published n none old = old
  published n (some out) old = some (edition kb c n out)

  catalog-publish_edition :
      (m n : Text) (out : Output) (into : KnowledgeBase)
      → catalog (publish_catalog (edition kb c m out) into) (release_id c n)
        ≡ (if m == n then some (edition kb c m out) else catalog into (release_id c n))
  catalog-publish_edition m n out into =
      (publish_catalog_lem (edition kb c m out) into (release_id c n) 0).0
      ∙ rw (edition_lem m out).0 (elim (Bool-cases (m == n)) [
        | inl same ↦
            let e : release_id c m ≡ release_id c n = ap (release_id c) (eq-of-== m n same) in
            ground arith
        | inr other ↦ let f = release_id-injective c m n in ground (arith, f)
      ])

  published-cons :
      (m n : Text) (out : Output) (outputs : Dict Text Output) (old : Option Book)
      → lookup m outputs ≡ none
      → published n (lookup n outputs) (if m == n then some (edition kb c m out) else old)
        ≡ published n (lookup n ((m, out) ∷ outputs)) old
  published-cons m n out outputs old new = elim (Bool-cases (m == n)) [
    | inl same ↦
        let e : m ≡ n = eq-of-== m n same in
        let absent : lookup n outputs ≡ none = rw (← e) new in
        rw (lookup-cons, same, absent) (ap (λ k. some (edition kb c k out)) e)
    | inr other ↦ rw (lookup-cons, other) refl
  ]

  pub catalog-publish_all :
      (n : Text) (outputs : Dict Text Output) (into : KnowledgeBase)
      → NodupKeys outputs
      → catalog (publish_all (make_releases kb c outputs) into) (release_id c n)
        ≡ published n (lookup n outputs) (catalog into (release_id c n))
  unfolding make_releases publish_all
  catalog-publish_all n [] into d = rw lookup-nil refl
  catalog-publish_all n ((m, out) ∷ outputs) into (new, d) =
      catalog-publish_all n outputs (publish_catalog (edition kb c m out) into) d
      ∙ rw (catalog-publish_edition m n out into)
          (published-cons m n out outputs (catalog into (release_id c n)) new)

  pub catalog-publish_others :
      (id : Text) (outputs : Dict Text Output) (into : KnowledgeBase)
      → ((n : Text) → release_id c n ≢ id)
      → catalog (publish_all (make_releases kb c outputs) into) id ≡ catalog into id
  unfolding make_releases publish_all
  catalog-publish_others id [] into h = refl
  catalog-publish_others id ((m, out) ∷ outputs) into h =
      catalog-publish_others id outputs (publish_catalog (edition kb c m out) into) h
      ∙ ((publish_catalog_lem (edition kb c m out) into id 0).0
          ∙ rw (edition_lem m out).0 (ground (arith, h m)))

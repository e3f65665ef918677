-- ===== src/Catalog/Laws.antt =====
-- What `Release` adds, and what it leaves alone.
use repeatr.Base.{
  ◌≡◌, refl, ◌∙◌, none, some, List, [], ◌∷◌, ◌++◌, Text, text_eq, arith, eq-of-==, Bool-cases, inl,
  inr, ◌==◌, if◌then◌else◌,
}
use repeatr.Base.Dict.{
  Dict, lookup, insert, NodupKeys, lookup-nil, lookup-cons, lookup-insert, insert-NodupKeys,
}
use repeatr.Formula.{Ware}
use repeatr.Catalog.{Book, track, last_or, no_sku, latest, all, copy_tracks, clone, release}

module _ {ℓ} {V : Type ℓ} where
  lookup-copy_tracks_absent :
      (name : Text) (tracks into : Dict Text V)
      → lookup name tracks ≡ none
      → lookup name (copy_tracks tracks into) ≡ lookup name into
  unfolding copy_tracks
  lookup-copy_tracks_absent name [] into e = refl
  lookup-copy_tracks_absent name ((k, v) ∷ tracks) into e = ground (
    arith,
    lookup-cons name k v tracks,
    lookup-insert name k v into,
    lookup-copy_tracks_absent name tracks (insert k v into),
  )

  pub lookup-copy_tracks :
      (name : Text) (tracks into : Dict Text V)
      → NodupKeys tracks
      → lookup name into ≡ none
      → lookup name (copy_tracks tracks into) ≡ lookup name tracks
  unfolding copy_tracks
  lookup-copy_tracks name [] into d e = rw lookup-nil e
  lookup-copy_tracks name ((k, v) ∷ tracks) into (fresh, d) e = elim (Bool-cases (k == name)) [
    | inl same ↦
        let absent : lookup name tracks ≡ none = rw (← eq-of-== k name same) fresh in
        rw (lookup-cons name k v tracks, same)
          (lookup-copy_tracks_absent name tracks (insert k v into) absent
            ∙ rw (lookup-insert name k v into, same) refl)
    | inr other ↦
        rw (lookup-cons name k v tracks, other)
          (lookup-copy_tracks name tracks (insert k v into) d
            (rw (lookup-insert name k v into, other) e))
  ]

  pub copy_tracks-NodupKeys :
      (tracks into : Dict Text V) → NodupKeys into → NodupKeys (copy_tracks tracks into)
  unfolding copy_tracks
  copy_tracks-NodupKeys [] into d = d
  copy_tracks-NodupKeys ((k, v) ∷ tracks) into d =
      copy_tracks-NodupKeys tracks (insert k v into) (insert-NodupKeys k v into d)

-- A clone has the same id and the same tracks.
lookup-clone :
    (name : Text) (b : Book)
    → NodupKeys b.tracks
    → lookup name (clone b).tracks ≡ lookup name b.tracks
unfolding clone
lookup-clone name b d = lookup-copy_tracks name b.tracks [] d (lookup-nil {V = List Ware} name)

last_or-append : (w x : Ware) (xs : List Ware) → last_or w (xs ++ (x ∷ [])) ≡ x
last_or-append w x [] = refl
last_or-append w x (y ∷ xs) = last_or-append y x xs

-- From a book with no track twice, the new edition has the id of the old one and each name once. Its track of the given name is the
-- old track with the new product at the end; every other track is as before.
pub release_lem :
    (name other : Text) (ware : Ware) (b : Book)
    → NodupKeys b.tracks
    → ((release name ware b).id ≡ b.id)
      × NodupKeys (release name ware b).tracks
      × (lookup other (release name ware b).tracks ≡ (
          if name == other
          then some (track name b.tracks ++ (ware ∷ []))
          else lookup other b.tracks))
unfolding release
release_lem name other ware b d = (
  unfold clone in refl,
  insert-NodupKeys name _ (clone b).tracks (unfold clone in copy_tracks-NodupKeys b.tracks [] tt),
  rw (lookup-insert, lookup-clone name b d, lookup-clone other b d) refl,
)

-- From a book with no track twice, the product released on the default track is then the latest
-- one, after all that were there.
pub latest-release :
    (ware : Ware) (b : Book)
    → NodupKeys b.tracks
    → (latest (release [] ware b) ≡ ware) × (all (release [] ware b) ≡ all b ++ (ware ∷ []))
unfolding latest all
latest-release ware b d =
    let found : lookup [] (release [] ware b).tracks ≡ some (track [] b.tracks ++ (ware ∷ [])) =
      ground (arith, (release_lem [] [] ware b d).2) in
    rw found (last_or-append no_sku ware (track [] b.tracks), refl)

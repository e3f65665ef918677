-- ===== src/Transmat/Fetch.antt =====
-- What an arena of the tar transmat was made from.
use repeatr.Base.{
  ◌≡◌, refl, arith, ==-refl, Bool, true, false, Bool-cases, eq-of-==, Text, text_eq, List, [], ◌∷◌,
  ◌++◌, ◌⊎◌, inl, inr, ◌==◌, if◌then◌else◌,
}
use repeatr.Transmat.Tar.{
  Raised, Handling, skip, skip_alive, re_raise, handling, whitelisted, Choice, chosen, none_chosen,
  tried, handled, choose, verified, fetched, fetch, passed_up, tar_kind, tar_materialize, mismatch,
}

module _ {S : Type 0} (open_stream : Text → Text → Raised ⊎ S)
    (unpack : Text → Text → S → Raised ⊎ (Text × Text)) (hash : Text) where
  -- A warehouse that could not be reached, or does not have the ware.
  abbrev pub Skipped : Text → Type 0
  Skipped uri =
      (e : Raised) × (open_stream uri hash ≡ inl e)
      × ((handling e ≡ skip) ⊎ (handling e ≡ skip_alive))

  abbrev pub AllSkipped : List Text → Type 0
  AllSkipped [] = Unit
  AllSkipped (uri ∷ uris) = Skipped uri × AllSkipped uris

  -- The first warehouse that opens is the chosen one.
  abbrev pub First : List Text → Text → S → Type 0
  First uris uri stream =
      (before : List Text) × (after : List Text) × (uris ≡ before ++ (uri ∷ after))
      × AllSkipped before
      × (open_stream uri hash ≡ inr stream)

  First-cons :
      (u : Text) (uris : List Text) (uri : Text) (stream : S)
      → Skipped u
      → First uris uri stream
      → First (u ∷ uris) uri stream
  First-cons u uris uri stream s (before, after, e, all, o) =
      (u ∷ before, after, rw e refl, (s, all), o)

  module _ (u : Text) (uris : List Text) (uri : Text) (stream : S)
      (rest : (available : Bool)
        → choose open_stream unpack hash uris available ≡ inr (chosen uri stream)
        → First uris uri stream) where
    handled-First :
        (e : Raised) (available : Bool) (h : Handling)
        → open_stream u hash ≡ inl e
        → handling e ≡ h
        → handled open_stream unpack (choose open_stream unpack hash uris) e available h
          ≡ inr (chosen uri stream)
        → First (u ∷ uris) uri stream
    handled-First e available skip o same r =
        First-cons u uris uri stream (e, o, inl same) (rest available r)
    handled-First e available skip_alive o same r =
        First-cons u uris uri stream (e, o, inr same) (rest true r)
    handled-First e available re_raise o same r = absurd (ground arith)

    tried-First :
        (available : Bool) (opened : Raised ⊎ S)
        → open_stream u hash ≡ opened
        → tried open_stream unpack (choose open_stream unpack hash uris) u available opened
          ≡ inr (chosen uri stream)
        → First (u ∷ uris) uri stream
    tried-First available (inl e) o r = handled-First e available (handling e) o refl r
    tried-First available (inr s) o r =
        let same : u ≡ uri = ground arith in
        let found : s ≡ stream = ground arith in
        ([], uris, rw same refl, tt, rw (← found, ← same) o)

  choose-First :
      (uris : List Text) (available : Bool) (uri : Text) (stream : S)
      → choose open_stream unpack hash uris available ≡ inr (chosen uri stream)
      → First uris uri stream
  unfolding choose
  choose-First [] available uri stream e = absurd (ground arith)
  choose-First (u ∷ uris) available uri stream e =
      tried-First u uris uri stream (λ a. choose-First uris a uri stream) available
        (open_stream u hash) refl e

  -- The arena of a path holds the ware that was asked for, as it was unpacked from the first warehouse that opened.
  abbrev pub IsFetched : List Text → Text → Type 0
  IsFetched uris path =
      (uri : Text) × (stream : S) × First uris uri stream
      × (unpack uri hash stream ≡ inr (path, hash))

  verified-inr :
      (r : Raised ⊎ (Text × Text)) (path : Text)
      → verified open_stream unpack hash r ≡ inr path
      → r ≡ inr (path, hash)
  verified-inr (inl e) path v = absurd (ground arith)
  verified-inr (inr (p, actual)) path v = elim (Bool-cases (actual == hash)) [
    | inl same ↦ let place : p ≡ path = ground arith in rw (eq-of-== actual hash same, place) refl
    | inr unlike ↦ absurd (ground arith)
  ]

  fetched-IsFetched :
      (uris : List Text) (path : Text) (c : Raised ⊎ Choice S)
      → choose open_stream unpack hash uris false ≡ c
      → fetched open_stream unpack hash c ≡ inr path
      → IsFetched uris path
  fetched-IsFetched uris path (inl e) o r = absurd (ground arith)
  fetched-IsFetched uris path (inr (chosen uri stream)) o r = (
    uri,
    stream,
    choose-First uris false uri stream o,
    verified-inr (unpack uri hash stream) path r,
  )
  fetched-IsFetched uris path (inr (none_chosen true)) o r = absurd (ground arith)
  fetched-IsFetched uris path (inr (none_chosen false)) o r = absurd (ground arith)

  fetch-IsFetched :
      (uris : List Text) (path : Text)
      → fetch open_stream unpack hash uris ≡ inr path
      → IsFetched uris path
  fetch-IsFetched [] path r = absurd (ground arith)
  fetch-IsFetched (u ∷ uris) path r =
      fetched-IsFetched (u ∷ uris) path (choose open_stream unpack hash (u ∷ uris) false) refl r

  passed_up-inr :
      (r : Raised ⊎ Text) (path : Text) → passed_up open_stream unpack r ≡ inr path → r ≡ inr path
  passed_up-inr (inl e) path p = absurd (ground arith)
  passed_up-inr (inr q) path p = p

  -- Where `Materialize` gives an arena, the kind is "tar", and the arena was unpacked from the first
  -- warehouse of the list that opened, each one before it being out of reach or without the ware; and what was unpacked has
  -- the hash that was asked for, whatever the options.
  pub tar_materialize-IsFetched :
      (kind : Text) (uris : List Text) (path : Text)
      → tar_materialize open_stream unpack kind hash uris ≡ inr path
      → (tar_kind ≡ kind) × IsFetched uris path
  unfolding tar_materialize
  tar_materialize-IsFetched kind uris path r = elim (Bool-cases (tar_kind == kind)) [
    | inl same ↦ (
      eq-of-== tar_kind kind same,
      fetch-IsFetched uris path (let p = passed_up-inr _ path r in ground arith),
    )
    | inr unlike ↦ absurd (let p = passed_up-inr _ path r in ground arith)
  ]

  choose-skipped :
      (before after : List Text) (available : Bool)
      → AllSkipped before
      → (a : Bool) × (choose open_stream unpack hash (before ++ after) available
          ≡ choose open_stream unpack hash after a)
  unfolding choose
  choose-skipped [] after available s = (available, refl)
  choose-skipped (u ∷ before) after available ((e, o, inl h), s) =
      let (a, same) = choose-skipped before after available s in (a, rw (o, h) same)
  choose-skipped (u ∷ before) after available ((e, o, inr h), s) =
      let (a, same) = choose-skipped before after true s in (a, rw (o, h) same)

  choose-opened :
      (uri : Text) (after : List Text) (stream : S) (available : Bool)
      → open_stream uri hash ≡ inr stream
      → choose open_stream unpack hash (uri ∷ after) available ≡ inr (chosen uri stream)
  unfolding choose
  choose-opened uri after stream available o = rw o refl

  fetch-cons :
      (before after : List Text) (uri : Text)
      → fetch open_stream unpack hash (before ++ (uri ∷ after))
        ≡ fetched open_stream unpack hash
            (choose open_stream unpack hash (before ++ (uri ∷ after)) false)
  fetch-cons [] after uri = refl
  fetch-cons (u ∷ before) after uri = refl

  -- Where the warehouses before one are out of reach or without the ware, and that one opens and its stream is unpacked,
  -- `Materialize` gives the arena if what was unpacked has the hash that was asked for, and panics with
  -- `ErrHashMismatch` of the two hashes if not.
  pub tar_materialize-first :
      (before after : List Text) (uri : Text) (stream : S) (path actual : Text)
      → AllSkipped before
      → open_stream uri hash ≡ inr stream
      → unpack uri hash stream ≡ inr (path, actual)
      → tar_materialize open_stream unpack tar_kind hash (before ++ (uri ∷ after))
        ≡ (if actual == hash then inr path else inl (mismatch hash actual))
  unfolding tar_materialize whitelisted
  tar_materialize-first before after uri stream path actual s o got =
      let (a, same) = choose-skipped before (uri ∷ after) false s in
      rw
        (
          ==-refl tar_kind,
          fetch-cons before after uri,
          same,
          choose-opened uri after stream a o,
          got,
        )
        (elim (Bool-cases (actual == hash)) [
          | inl alike ↦ rw alike refl
          | inr unlike ↦ rw unlike refl
        ])

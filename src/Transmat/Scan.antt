-- ===== src/Transmat/Scan.antt =====
-- rio/transmat/impl/tar/tar_transmat.go: `Scan`. What the warehouses, the stat of the path and `Save` answer are arguments; with the
-- result comes the list of the warehouses in which the ware was committed. A panic is `inl`, logs are left out.
use repeatr.Base.{
  ◌≡◌, refl, sym, ap, arith, Bool, true, false, Bool-cases, eq-of-==, Text, str, text_eq, Option,
  none, some, List, [], ◌∷◌, ◌⊎◌, inl, inr, ◌==◌, if◌then◌else◌,
}
use repeatr.Failures.{warehouse_unavailable}
use repeatr.Transmat.Tar.{Raised, internal_error, failure_of, whitelisted, tar_kind}

-- What `os.Stat` says of the path.
pub data Stat : Type 0 where
  is_there is_absent : Stat
  stat_failed : Raised → Stat

abbrev pub no_warehouse : Raised
no_warehouse = failure_of (
    warehouse_unavailable
      (record { msg = str "No warehouses responded!"; from = []; during = str "save" }))

abbrev pub Scanned : Type 0
Scanned = (Raised ⊎ Text) × List Text

module _ (answers : Text → Raised ⊎ Bool) (open_writer : Text → Option Raised)
    (commit : Text → Text → Option Raised) (save : Raised ⊎ Text) where
  abbrev pub dialed_one : Text → Raised ⊎ Bool → Raised ⊎ List Text → Raised ⊎ List Text
  dialed_one uri (inl e) rest = inl e
  dialed_one uri (inr answered) (inl e) = inl e
  dialed_one uri (inr true) (inr warehouses) = inr (uri ∷ warehouses)
  dialed_one uri (inr false) (inr warehouses) = inr warehouses

  -- The loop that dials the warehouses: `NewWarehouse`, which may panic, and `PingWritable`.
  unfoldable pub dial : List Text → Raised ⊎ List Text
  dial [] = inr []
  dial (uri ∷ uris) = dialed_one uri (answers uri) (dial uris)

  abbrev pub or_else : Option Raised → Option Raised → Option Raised
  or_else none rest = rest
  or_else (some e) rest = some e

  -- The loop that opens the writers.
  unfoldable pub open_writers : List Text → Option Raised
  open_writers [] = none
  open_writers (wh ∷ warehouses) = or_else (open_writer wh) (open_writers warehouses)

  abbrev pub committed_one : Text → Scanned → Option Raised → Scanned
  committed_one wh (r, done) none = (r, wh ∷ done)
  committed_one wh rest (some e) = (inl e, [])

  -- The loop that commits.
  unfoldable pub commit_all : Text → List Text → Scanned
  commit_all id [] = (inr id, [])
  commit_all id (wh ∷ warehouses) = committed_one wh (commit_all id warehouses) (commit wh id)

  abbrev pub saved_to : List Text → Raised ⊎ Text → Scanned
  saved_to warehouses (inl e) = (inl e, [])
  saved_to warehouses (inr id) = commit_all id warehouses

  abbrev pub streamed : List Text → Option Raised → Scanned
  streamed warehouses (some e) = (inl e, [])
  streamed warehouses none = saved_to warehouses save

  abbrev pub dialed : Raised ⊎ List Text → Scanned
  dialed (inl e) = (inl e, [])
  dialed (inr []) = (inl no_warehouse, [])
  dialed (inr (wh ∷ warehouses)) = streamed (wh ∷ warehouses) (open_writers (wh ∷ warehouses))

  -- From the stat on.
  abbrev pub scan_present : List Text → Stat → Scanned
  scan_present uris is_absent = (inr [], [])
  scan_present uris (stat_failed e) = (inl e, [])
  scan_present [] is_there = (save, [])
  scan_present (uri ∷ uris) is_there = dialed (dial (uri ∷ uris))

  abbrev pub scan_passed_up : Scanned → Scanned
  scan_passed_up (inl e, done) = (inl (whitelisted e), done)
  scan_passed_up (inr id, done) = (inr id, done)

  -- `TarTransmat.Scan`
  unfoldable pub tar_scan : Text → List Text → Stat → Scanned
  unfolding dial open_writers commit_all whitelisted
  tar_scan kind uris stat =
      scan_passed_up (if tar_kind == kind then scan_present uris stat else (inl internal_error, []))

  committed_one-inr :
      (wh : Text) (rest : Scanned) (c : Option Raised) (path : Text) (done : List Text)
      → committed_one wh rest c ≡ (inr path, done)
      → (after : List Text) × (rest ≡ (inr path, after)) × (wh ∷ after ≡ done)
  committed_one-inr wh (r, after) none path done e =
      (after, (let same : r ≡ inr path = ap (λ p. p.0) e in rw same refl), ap (λ p. p.1) e)
  committed_one-inr wh rest (some e) path done same = absurd (ground arith)

  commit_all-inr :
      (id : Text) (warehouses : List Text) (path : Text) (done : List Text)
      → commit_all id warehouses ≡ (inr path, done)
      → (id ≡ path) × (warehouses ≡ done)
  unfolding commit_all
  commit_all-inr id [] path done e = (ground arith, ground arith)
  commit_all-inr id (wh ∷ warehouses) path done e =
      let (after, same, all) =
        committed_one-inr wh (commit_all id warehouses) (commit wh id) path done e in
      let (found, rest) = commit_all-inr id warehouses path after same in (found, rw rest all)

  abbrev pub IsCons : List Text → Type 0
  IsCons warehouses = (wh : Text) × (rest : List Text) × (warehouses ≡ wh ∷ rest)

  -- No address brings about a panic, and of the warehouses at least those that answer are left, in their order.
  abbrev pub Reached : List Text → List Text → Type 0
  Reached [] left = left ≡ []
  Reached (uri ∷ uris) left =
      ((answers uri ≡ inr false) × Reached uris left)
      ⊎ ((rest : List Text) × (answers uri ≡ inr true) × (left ≡ uri ∷ rest) × Reached uris rest)

  -- Where the path exists, what a scan gives for the warehouses that were asked for.
  abbrev pub IsSaved : List Text → Text → List Text → Type 0
  IsSaved uris id done = (save ≡ inr id) × Reached uris done × ((uris ≡ []) ⊎ IsCons done)

  dialed_one-inr :
      (uri : Text) (uris : List Text) (a : Raised ⊎ Bool) (rest : Raised ⊎ List Text)
      (left : List Text)
      → answers uri ≡ a
      → dialed_one uri a rest ≡ inr left
      → ((more : List Text) → rest ≡ inr more → Reached uris more)
      → Reached (uri ∷ uris) left
  dialed_one-inr uri uris (inl e) rest left o d k = absurd (ground arith)
  dialed_one-inr uri uris (inr b) (inl e) left o d k = absurd (ground arith)
  dialed_one-inr uri uris (inr true) (inr more) left o d k =
      let same : uri ∷ more ≡ left = ground arith in inr (more, o, sym same, k more refl)
  dialed_one-inr uri uris (inr false) (inr more) left o d k =
      let same : more ≡ left = ground arith in inl (o, rw (← same) (k more refl))

  dial-Reached : (uris left : List Text) → dial uris ≡ inr left → Reached uris left
  unfolding dial
  dial-Reached [] left d = let same : [] ≡ left = ground arith in sym same
  dial-Reached (uri ∷ uris) left d =
      dialed_one-inr uri uris (answers uri) (dial uris) left refl d (dial-Reached uris)

  saved_to-inr :
      (warehouses : List Text) (r : Raised ⊎ Text) (id : Text) (done : List Text)
      → saved_to warehouses r ≡ (inr id, done)
      → (r ≡ inr id) × (done ≡ warehouses)
  saved_to-inr warehouses (inl e) id done same = absurd (ground arith)
  saved_to-inr warehouses (inr found) id done same =
      let (alike, all) = commit_all-inr found warehouses id done same in (rw alike refl, sym all)

  streamed-inr :
      (warehouses : List Text) (opened : Option Raised) (id : Text) (done : List Text)
      → streamed warehouses opened ≡ (inr id, done)
      → (save ≡ inr id) × (done ≡ warehouses)
  streamed-inr warehouses (some e) id done same = absurd (ground arith)
  streamed-inr warehouses none id done same = saved_to-inr warehouses save id done same

  dialed-IsSaved :
      (uris : List Text) (dialing : Raised ⊎ List Text) (id : Text) (done : List Text)
      → dial uris ≡ dialing
      → dialed dialing ≡ (inr id, done)
      → IsSaved uris id done
  dialed-IsSaved uris (inl e) id done d same = absurd (ground arith)
  dialed-IsSaved uris (inr []) id done d same = absurd (ground arith)
  dialed-IsSaved uris (inr (wh ∷ warehouses)) id done d same =
      let (found, all) =
        streamed-inr (wh ∷ warehouses) (open_writers (wh ∷ warehouses)) id done same in
      (found, rw all (dial-Reached uris (wh ∷ warehouses) d), inr (wh, warehouses, all))

  scan_present-inr :
      (uris : List Text) (stat : Stat) (id : Text) (done : List Text)
      → scan_present uris stat ≡ (inr id, done)
      → ((stat ≡ is_absent) × (id ≡ []) × (done ≡ [])) ⊎ ((stat ≡ is_there) × IsSaved uris id done)
  unfolding dial
  scan_present-inr uris is_absent id done same = inl (refl, ground arith, ground arith)
  scan_present-inr uris (stat_failed e) id done same = absurd (ground arith)
  scan_present-inr [] is_there id done same =
      inr (refl, (ap (λ p. p.0) same, ground arith, inl refl))
  scan_present-inr (uri ∷ uris) is_there id done same =
      inr (refl, dialed-IsSaved (uri ∷ uris) (dial (uri ∷ uris)) id done refl same)

  scan_passed_up-inr :
      (s : Scanned) (id : Text) (done : List Text)
      → scan_passed_up s ≡ (inr id, done)
      → s ≡ (inr id, done)
  scan_passed_up-inr (inl e, after) id done same = absurd (ground arith)
  scan_passed_up-inr (inr found, after) id done same = same

  -- Where `Scan` gives a hash, the kind is "tar", and either the path does not exist, the hash is empty and nothing was
  -- committed; or the hash is the one that `Save` gave, no address brought about a panic, and the ware was committed in exactly the warehouses
  -- that answered, in their order, of which there is one at least unless none were asked for.
  pub tar_scan-IsSaved :
      (kind : Text) (uris : List Text) (stat : Stat) (id : Text) (done : List Text)
      → tar_scan kind uris stat ≡ (inr id, done)
      → (tar_kind ≡ kind)
        × (((stat ≡ is_absent) × (id ≡ []) × (done ≡ []))
            ⊎ ((stat ≡ is_there) × IsSaved uris id done))
  unfolding tar_scan
  tar_scan-IsSaved kind uris stat id done same = elim (Bool-cases (tar_kind == kind)) [
    | inl alike ↦ (
      eq-of-== tar_kind kind alike,
      scan_present-inr uris stat id done
          (let p = scan_passed_up-inr _ id done same in ground arith),
    )
    | inr unlike ↦ absurd (let p = scan_passed_up-inr _ id done same in ground arith)
  ]

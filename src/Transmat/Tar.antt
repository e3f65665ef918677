-- ===== src/Transmat/Tar.antt =====
-- rio/transmat/impl/tar/tar_transmat.go: how `Materialize` picks a warehouse and checks what it got. Opening a warehouse
-- (`NewWarehouse` and `makeReader`), and unpacking a stream into a new arena (`Decompress`, `TempDir`, `Extract`,
-- `PlaceFile` of the root, and `Hash` with base64), are arguments. A panic is `inl`, logs are left out.
use repeatr.Base.{
  Bool, true, false, Text, str, text_eq, List, [], ◌∷◌, ◌⊎◌, inl, inr, ◌==◌, if◌then◌else◌,
}
use repeatr.Formula.{Ware}
use repeatr.Failures.{
  Failure, config_parsing, config_validation, warehouse_unavailable, warehouse_problem, ware_dne,
  hash_mismatch, ware_corrupt, unmarshalling, other,
}

-- The panics: `rio.ErrInternal`, `rio.ErrAssembly`, an error of the API or any other, and `rio.ErrUnknown` with its cause.
pub data Raised : Type 0 where
  internal_error assembly_error : Raised
  failure_of : Failure → Raised
  unknown_error : Raised → Raised

-- `TryPlanWhitelist` of rio/errors.go
unfoldable pub whitelisted : Raised → Raised
whitelisted internal_error = internal_error
whitelisted assembly_error = assembly_error
whitelisted (unknown_error cause) = unknown_error cause
whitelisted (failure_of (warehouse_unavailable e)) = failure_of (warehouse_unavailable e)
whitelisted (failure_of (warehouse_problem e)) = failure_of (warehouse_problem e)
whitelisted (failure_of (ware_dne e)) = failure_of (ware_dne e)
whitelisted (failure_of (hash_mismatch e)) = failure_of (hash_mismatch e)
whitelisted (failure_of (config_parsing e)) = unknown_error (failure_of (config_parsing e))
whitelisted (failure_of (config_validation e)) = unknown_error (failure_of (config_validation e))
whitelisted (failure_of (ware_corrupt e)) = unknown_error (failure_of (ware_corrupt e))
whitelisted (failure_of (unmarshalling t)) = unknown_error (failure_of (unmarshalling t))
whitelisted (failure_of (other t)) = unknown_error (failure_of (other t))

-- What the loop over the warehouses does on a panic.
pub data Handling : Type 0 where
  skip skip_alive re_raise : Handling

abbrev pub handling : Raised → Handling
handling internal_error = re_raise
handling assembly_error = re_raise
handling (unknown_error cause) = re_raise
handling (failure_of (warehouse_unavailable e)) = skip
handling (failure_of (ware_dne e)) = skip_alive
handling (failure_of (warehouse_problem e)) = re_raise
handling (failure_of (hash_mismatch e)) = re_raise
handling (failure_of (config_parsing e)) = re_raise
handling (failure_of (config_validation e)) = re_raise
handling (failure_of (ware_corrupt e)) = re_raise
handling (failure_of (unmarshalling t)) = re_raise
handling (failure_of (other t)) = re_raise

-- Where the loop ended: with a stream, or without one and with what `available` is then.
pub data Choice (S : Type 0) : Type 0 where
  chosen : Text → S → Choice S
  none_chosen : Bool → Choice S

abbrev pub tar_kind : Text
tar_kind = str "tar"

abbrev pub tar_ware : Text → Ware
tar_ware hash = record { kind = tar_kind; hash = hash }

abbrev pub unavailable : Text → Raised
unavailable msg =
    failure_of (warehouse_unavailable (record { msg = msg; from = []; during = str "fetch" }))

abbrev pub absent_ware : Text → Raised
absent_ware hash = failure_of (ware_dne (record { ware = tar_ware hash; from = [] }))

abbrev pub mismatch : Text → Text → Raised
mismatch expected actual =
    failure_of
      (hash_mismatch (record { expected = tar_ware expected; actual = tar_ware actual; from = [] }))

module _ {S : Type 0} (open_stream : Text → Text → Raised ⊎ S)
    (unpack : Text → Text → S → Raised ⊎ (Text × Text)) where
  abbrev pub handled : (Bool → Raised ⊎ Choice S) → Raised → Bool → Handling → Raised ⊎ Choice S
  handled rest e available skip = rest available
  handled rest e available skip_alive = rest true
  handled rest e available re_raise = inl e

  abbrev pub tried : (Bool → Raised ⊎ Choice S) → Text → Bool → Raised ⊎ S → Raised ⊎ Choice S
  tried rest uri available (inl e) = handled rest e available (handling e)
  tried rest uri available (inr stream) = inr (chosen uri stream)

  -- The loop over the warehouses.
  unfoldable pub choose : Text → List Text → Bool → Raised ⊎ Choice S
  choose hash [] available = inr (none_chosen available)
  choose hash (uri ∷ uris) available = tried (choose hash uris) uri available (open_stream uri hash)

  -- The check of the hash: `AcceptHashMismatch` sets the hash of the arena, and the panic comes all the same.
  abbrev pub verified : Text → Raised ⊎ (Text × Text) → Raised ⊎ Text
  verified hash (inl e) = inl e
  verified hash (inr (path, actual)) =
      if actual == hash then inr path else inl (mismatch hash actual)

  -- From the loop on.
  abbrev pub fetched : Text → Raised ⊎ Choice S → Raised ⊎ Text
  fetched hash (inl e) = inl e
  fetched hash (inr (chosen uri stream)) = verified hash (unpack uri hash stream)
  fetched hash (inr (none_chosen true)) = inl (absent_ware hash)
  fetched hash (inr (none_chosen false)) = inl (unavailable (str "No warehouses responded!"))

  -- After the check of the kind.
  abbrev pub fetch : Text → List Text → Raised ⊎ Text
  fetch hash [] = inl (unavailable (str "No warehouse coords configured!"))
  fetch hash (uri ∷ uris) = fetched hash (choose hash (uri ∷ uris) false)

  abbrev pub passed_up : Raised ⊎ Text → Raised ⊎ Text
  passed_up (inl e) = inl (whitelisted e)
  passed_up (inr path) = inr path

  -- `TarTransmat.Materialize`, to the path of the arena.
  unfoldable pub tar_materialize : Text → Text → List Text → Raised ⊎ Text
  unfolding choose whitelisted
  tar_materialize kind hash uris =
      passed_up (if tar_kind == kind then fetch hash uris else inl internal_error)

-- ===== src/Failures/Names.antt =====
-- The names of errors in run records lead back to their types.
use repeatr.Base.{◌≡◌, refl, ap, sym, ◌∙◌, some, Text, text_eq, arith}
use repeatr.Failures.{
  Failure, config_parsing, config_validation, warehouse_unavailable, warehouse_problem, ware_dne,
  hash_mismatch, ware_corrupt, unmarshalling, other, failure_type_to_string,
  string_to_blank_failure, blank,
}

read_same :
    (s t : Text) (b : Failure)
    → some t ≡ some s
    → string_to_blank_failure t ≡ some b
    → string_to_blank_failure s ≡ some b
read_same s t b same h = let q : t ≡ s = ground arith in ap string_to_blank_failure (sym q) ∙ h

-- The name that a run record gives to an error is read back as the zero error of the error's type,
-- and this zero error has the same name.
pub failure_round_trip :
    (e : Failure) (s : Text)
    → failure_type_to_string e ≡ some s
    → (string_to_blank_failure s ≡ some (blank e)) × (failure_type_to_string (blank e) ≡ some s)
unfolding failure_type_to_string string_to_blank_failure text_eq
failure_round_trip (config_parsing x) s h = (read_same s _ _ h refl, h)
failure_round_trip (config_validation x) s h = (read_same s _ _ h refl, h)
failure_round_trip (warehouse_unavailable x) s h = (read_same s _ _ h refl, h)
failure_round_trip (warehouse_problem x) s h = (read_same s _ _ h refl, h)
failure_round_trip (ware_dne x) s h = (read_same s _ _ h refl, h)
failure_round_trip (hash_mismatch x) s h = (read_same s _ _ h refl, h)
failure_round_trip (ware_corrupt x) s h = (read_same s _ _ h refl, h)
failure_round_trip (unmarshalling msg) s h = ground arith
failure_round_trip (other text) s h = ground arith

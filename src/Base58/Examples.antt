-- ===== src/Base58/Examples.antt =====
-- The theorems on base 58 at concrete byte strings.
use repeatr.Base.{◌≡◌, refl, [], ◌∷◌, str, nat_eq, AllBelow, arith}
use repeatr.Base58.{b58encode, b58decode, digits}
use repeatr.Base58.RoundTrip.{b58decode-b58encode, b58encode-b58decode}

b58encode_runs : b58encode (0 ∷ 255 ∷ 1 ∷ []) ≡ str "1LQY"
unfolding b58encode digits nat_eq
b58encode_runs = refl

bytes-AllBelow : AllBelow 256 (0 ∷ 255 ∷ 1 ∷ [])
bytes-AllBelow = ground arith

digits-AllBelow : AllBelow 58 (0 ∷ 57 ∷ 3 ∷ [])
digits-AllBelow = ground arith

b58decode-b58encode_example : b58decode (b58encode (0 ∷ 255 ∷ 1 ∷ [])) ≡ 0 ∷ 255 ∷ 1 ∷ []
b58decode-b58encode_example = b58decode-b58encode (0 ∷ 255 ∷ 1 ∷ []) bytes-AllBelow

b58encode-b58decode_example : b58encode (b58decode (str "1z4")) ≡ str "1z4"
b58encode-b58decode_example = b58encode-b58decode (0 ∷ 57 ∷ 3 ∷ []) digits-AllBelow

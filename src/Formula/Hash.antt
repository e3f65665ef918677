-- ===== src/Formula/Hash.antt =====
-- `Formula.Hash` (api/def/formula.go) and `Stage2.ID` (rsrch/model/formula/stages.go). The codec,
-- SHA-384 and base64 are arguments.
use repeatr.Base.{
  ℕ, ◌≡◌, refl, sym, ap, ◌∙◌, Option, none, some, List, [], ◌∷◌, ◌++◌, Text, text_eq, arith, ◌==◌,
  Bool, true, false, ◌&&◌, if◌then◌else◌, AllBelow,
}
use repeatr.Base.Dict.{Dict, lookup, NodupKeys, lookup-nil, lookup-cons}
use repeatr.Formula.{Formula, Input, Output}
use repeatr.Formula.Clone.{clone, clone-eq, IsValid}
use repeatr.Base58.{b58encode, b58decode}
use repeatr.Base58.RoundTrip.{b58decode-b58encode}

-- A write through every pointer of a map.
abbrev pub map_values {ℓ} : {V : Type ℓ} → (Text → V → V) → Dict Text V → Dict Text V
map_values f [] = []
map_values f ((k, v) ∷ d) = (k, f k v) ∷ map_values f d

abbrev pub bare_input : Text → Input → Input
bare_input _ i = record i { warehouses = [] }

abbrev pub bare_output : Text → Output → Output
bare_output _ o = record o { hash = []; warehouses = [] }

-- The two loops of `Hash`.
unfoldable pub bare : Formula → Formula
bare f = record {
  inputs = map_values bare_input f.inputs;
  action = f.action;
  outputs = map_values bare_output f.outputs;
}

-- `Hash`
unfoldable pub hash : (Formula → List ℕ) → (List ℕ → List ℕ) → Formula → Text
unfolding bare
hash encode sha384 f = b58encode (sha384 (encode (bare (clone f))))

-- The first loop of `ID`: no output has a hash.
unfoldable pub no_hashes : Dict Text Output → Bool
no_hashes [] = true
no_hashes ((_, o) ∷ outputs) = o.hash == [] && no_hashes outputs

-- The third loop of `ID`.
unfoldable pub conjectured : Dict Text Output → Dict Text Output
conjectured [] = []
conjectured ((k, o) ∷ outputs) =
    let rest = conjectured outputs in
    if o.conjecture then (k, record o { warehouses = [] }) ∷ rest else rest

abbrev stage2_bare : Formula → Formula
stage2_bare f = record {
  inputs = map_values bare_input f.inputs;
  action = f.action;
  outputs = conjectured f.outputs;
}

-- `Stage2.ID`; `none` where it panics.
unfoldable pub stage2_id :
    (Formula → List ℕ) → (List ℕ → List ℕ) → (List ℕ → Text) → Formula → Option Text
unfolding no_hashes conjectured
stage2_id encode sha384 base64 f =
    if no_hashes f.outputs then some (base64 (sha384 (encode (stage2_bare (clone f))))) else none

module _ {ℓ} {V : Type ℓ} (f g : Text → V → V)
    (same : (k : Text) (v : V) → g k (f k v) ≡ g k v) where
  map_values-absorb : (d : Dict Text V) → map_values g (map_values f d) ≡ map_values g d
  map_values-absorb [] = refl
  map_values-absorb ((k, v) ∷ d) =
      ap (λ w. (k, w) ∷ map_values g (map_values f d)) (same k v)
      ∙ ap (λ e. (k, g k v) ∷ e) (map_values-absorb d)

module _ {ℓ} {V : Type ℓ} (f : Text → V → V) where
  lookup-map_values :
      (k : Text) (d : Dict Text V) → lookup k d ≡ none → lookup k (map_values f d) ≡ none
  lookup-map_values k [] e = lookup-nil {V = V} k
  lookup-map_values k ((j, v) ∷ d) e =
      ground (
        arith,
        lookup-cons k j v d,
        lookup-cons k j (f j v) (map_values f d),
        lookup-map_values k d,
      )

  map_values-NodupKeys : (d : Dict Text V) → NodupKeys d → NodupKeys (map_values f d)
  map_values-NodupKeys [] n = tt
  map_values-NodupKeys ((k, v) ∷ d) (new, n) = (lookup-map_values k d new, map_values-NodupKeys d n)

-- What a formula says of where wares are kept, and of what the outputs were.
pub record Incidentals : Type 0 where
  pub input_warehouses : Text → List Text
  pub output_warehouses : Text → List Text
  pub output_hash : Text → Text

abbrev pub dressed : Incidentals → Formula → Formula
dressed x f = record {
  inputs = map_values (λ k i. record i { warehouses = x.input_warehouses k }) f.inputs;
  action = f.action;
  outputs =
      map_values (λ k o. record o { hash = x.output_hash k; warehouses = x.output_warehouses k })
        f.outputs;
}

dressed-IsValid : (x : Incidentals) (f : Formula) → IsValid f → IsValid (dressed x f)
dressed-IsValid x f v = record {
  inputs = map_values-NodupKeys _ f.inputs v.inputs;
  env = v.env;
  outputs = map_values-NodupKeys _ f.outputs v.outputs;
}

bare-dressed : (x : Incidentals) (f : Formula) → bare (dressed x f) ≡ bare f
unfolding bare
bare-dressed x f =
    rw
      (map_values-absorb (λ k i. record i { warehouses = x.input_warehouses k }) bare_input
        (λ k i. refl) f.inputs)
      (rw
        (map_values-absorb
          (λ k o. record o { hash = x.output_hash k; warehouses = x.output_warehouses k })
          bare_output (λ k o. refl) f.outputs)
        refl)

module _ (encode : Formula → List ℕ) (sha384 : List ℕ → List ℕ) where
  -- The hash of a formula whose maps have no key twice does not depend on the warehouses of the inputs and outputs, nor on the hashes of the
  -- outputs.
  pub hash-dressed :
      (x : Incidentals) (f : Formula)
      → IsValid f
      → hash encode sha384 (dressed x f) ≡ hash encode sha384 f
  unfolding hash
  hash-dressed x f v =
      ap (λ g. b58encode (sha384 (encode g)))
        (ap bare (clone-eq (dressed x f) (dressed-IsValid x f v))
          ∙ (bare-dressed x f ∙ sym (ap bare (clone-eq f v))))

  -- Where the digest is of bytes, formulas whose maps have no key twice and that have the same hash
  -- have bare forms with the same digest: the text of a hash loses
  -- nothing of the digest.
  pub hash-digest :
      (f g : Formula)
      → ((b : List ℕ) → AllBelow 256 (sha384 b))
      → IsValid f
      → IsValid g
      → hash encode sha384 f ≡ hash encode sha384 g
      → sha384 (encode (bare f)) ≡ sha384 (encode (bare g))
  unfolding hash
  hash-digest f g bytes v w e = sym (digest f v) ∙ (ap b58decode e ∙ digest g w)
    where
      digest :
          (h : Formula)
          → IsValid h
          → b58decode (b58encode (sha384 (encode (bare (clone h))))) ≡ sha384 (encode (bare h))
      digest h u =
          b58decode-b58encode (sha384 (encode (bare (clone h)))) (bytes (encode (bare (clone h))))
          ∙ ap (λ k. sha384 (encode (bare k))) (clone-eq h u)

abbrev pub with_outputs : Formula → Dict Text Output → Formula
with_outputs f outputs = record f { outputs = outputs }

no_hashes-skip :
    (before after : Dict Text Output) (k : Text) (o : Output)
    → o.hash ≡ []
    → no_hashes (before ++ ((k, o) ∷ after)) ≡ no_hashes (before ++ after)
unfolding no_hashes
no_hashes-skip [] after k o e = ground arith
no_hashes-skip ((j, p) ∷ before) after k o e =
    ap (λ b. p.hash == [] && b) (no_hashes-skip before after k o e)

conjectured-skip :
    (before after : Dict Text Output) (k : Text) (o : Output)
    → o.conjecture ≡ false
    → conjectured (before ++ ((k, o) ∷ after)) ≡ conjectured (before ++ after)
unfolding conjectured
conjectured-skip [] after k o e = ground arith
conjectured-skip ((j, p) ∷ before) after k o e =
    ap (λ rest. if p.conjecture then (j, record p { warehouses = [] }) ∷ rest else rest)
      (conjectured-skip before after k o e)

-- The id of a stage 2 formula whose maps have no key twice does not depend on an output that is not conjectured and has no hash.
pub stage2_id-skip :
    (encode : Formula → List ℕ) (sha384 : List ℕ → List ℕ) (base64 : List ℕ → Text) (f : Formula)
    (before after : Dict Text Output) (k : Text) (o : Output)
    → o.hash ≡ []
    → o.conjecture ≡ false
    → IsValid (with_outputs f (before ++ ((k, o) ∷ after)))
    → IsValid (with_outputs f (before ++ after))
    → stage2_id encode sha384 base64 (with_outputs f (before ++ ((k, o) ∷ after)))
      ≡ stage2_id encode sha384 base64 (with_outputs f (before ++ after))
unfolding stage2_id
stage2_id-skip encode sha384 base64 f before after k o empty free v w =
    rw (clone-eq (with_outputs f (before ++ ((k, o) ∷ after))) v) (
      rw (clone-eq (with_outputs f (before ++ after)) w)
        (rw (no_hashes-skip before after k o empty, conjectured-skip before after k o free) refl))

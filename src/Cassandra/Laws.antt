-- ===== src/Cassandra/Laws.antt =====
-- What the knowledge base answers after a publication, whom it tells, and which commissions it
-- selects.
use repeatr.Base.{
  ℕ, ◌≡◌, refl, sym, ap, ◌∙◌, ◌↔◌, some, List, [], ◌∷◌, ◌++◌, Text, text_eq, nat_eq, arith, ◌==◌,
  if◌then◌else◌, Bool, true, false, ◌||◌, ◌⊎◌, inl, inr, contains, Bool-cases,
}
use repeatr.Base.Dict.{Dict, lookup-insert}
use repeatr.Formula.{Input}
use repeatr.Catalog.{Book}
use repeatr.Cassandra.{
  Commission, KnowledgeBase, send, send_all, catalog, publish_catalog, matches_of, matches_in,
  select_loop, select_commissions,
}
use mathlib.Core.List.{append-nil, append_assoc}

-- `v`, once for each time that the channel stands in the list.
abbrev pub copies : ℕ → List ℕ → Text → List Text
copies c [] v = []
copies c (ch ∷ chs) v = let rest = copies c chs v in if c == ch then v ∷ rest else rest

send-copies :
    (v : Text) (sent : ℕ → List Text) (ch c : ℕ) (rest : List Text)
    → send ch v sent c ++ rest ≡ sent c ++ (if c == ch then v ∷ rest else rest)
send-copies v sent ch c rest = elim (Bool-cases (c == ch)) [
  | inl e ↦ rw (e, append_assoc (sent c) (v ∷ []) rest) refl
  | inr e ↦ rw e refl
]

sent-send_all :
    (chs : List ℕ) (v : Text) (sent : ℕ → List Text) (c : ℕ)
    → send_all chs v sent c ≡ sent c ++ copies c chs v
unfolding send_all
sent-send_all [] v sent c = sym (append-nil (sent c))
sent-send_all (ch ∷ chs) v sent c =
    sent-send_all chs v (send ch v sent) c ∙ send-copies v sent ch c (copies c chs v)

-- After a publication the book is the catalog of its id, and the other catalogs and all
-- commissions are as before. Every channel gets the id once for each time that it is registered,
-- and nothing else.
pub publish_catalog_lem :
    (book : Book) (kb : KnowledgeBase) (id : Text) (c : ℕ)
    → (catalog (publish_catalog book kb) id ≡ (if book.id == id then some book else catalog kb id))
      × ((publish_catalog book kb).sent c ≡ kb.sent c ++ copies c kb.catalog_observers book.id)
      × ((publish_catalog book kb).commissions ≡ kb.commissions)
unfolding catalog publish_catalog
publish_catalog_lem book kb id c = (
  lookup-insert id book.id book kb.catalogs,
  sent-send_all kb.catalog_observers book.id kb.sent c,
  refl,
)

-- The commission stands in the list.
abbrev pub In : Commission → List Commission → Type 0
In c [] = ⊥
In c (d ∷ ds) = (c ≡ d) ⊎ In c ds

-- It is one of the values of the map.
abbrev pub InValues : Commission → Dict Text Commission → Type 0
InValues c [] = ⊥
InValues c ((_, d) ∷ ds) = (c ≡ d) ⊎ InValues c ds

-- It has an input whose name is one of the ids.
abbrev pub uses_any : List Text → Dict Text Input → Bool
uses_any ids [] = false
uses_any ids ((iname, _) ∷ inputs) = contains ids iname || uses_any ids inputs

In-append : (c : Commission) (xs ys : List Commission) → In c (xs ++ ys) ↔ (In c xs ⊎ In c ys)
In-append c [] ys = ground arith
In-append c (x ∷ xs) ys = ground (arith, In-append c xs ys)

matches_of-In :
    (c d : Commission) (iname : Text) (ids : List Text)
    → In c (matches_of d iname ids) ↔ ((c ≡ d) × (contains ids iname ≡ true))
unfolding matches_of
matches_of-In c d iname [] = ground arith
matches_of-In c d iname (id ∷ ids) = ground (arith, matches_of-In c d iname ids)

matches_in-In :
    (c d : Commission) (inputs : Dict Text Input) (ids : List Text)
    → In c (matches_in d inputs ids) ↔ ((c ≡ d) × (uses_any ids inputs ≡ true))
unfolding matches_in
matches_in-In c d [] ids = ground arith
matches_in-In c d ((iname, _) ∷ inputs) ids = ground (
  arith,
  matches_in-In c d inputs ids,
  matches_of-In c d iname ids,
  In-append c (matches_of d iname ids) (matches_in d inputs ids),
)

uses-cast :
    (ids : List Text) {c d : Commission}
    → c ≡ d
    → uses_any ids d.formula.inputs ≡ uses_any ids c.formula.inputs
uses-cast ids e = ap (λ x. uses_any ids x.formula.inputs) (sym e)

select_loop-In :
    (c : Commission) (cs : Dict Text Commission) (ids : List Text)
    → In c (select_loop cs ids) ↔ (InValues c cs × (uses_any ids c.formula.inputs ≡ true))
unfolding select_loop
select_loop-In c [] ids = ground arith
select_loop-In c ((_, d) ∷ cs) ids = ground (
  arith,
  select_loop-In c cs ids,
  matches_in-In c d d.formula.inputs ids,
  uses-cast ids,
  In-append c (matches_in d d.formula.inputs ids) (select_loop cs ids),
)

-- A commission is selected exactly if it is in the knowledge base and one of its inputs is named
-- after one of the catalogs.
pub select_commissions-In :
    (c : Commission) (kb : KnowledgeBase) (ids : List Text)
    → In c (select_commissions kb ids)
      ↔ (InValues c kb.commissions × (uses_any ids c.formula.inputs ≡ true))
unfolding select_commissions
select_commissions-In c kb ids = select_loop-In c kb.commissions ids

-- ===== src/Foreman/Pump.antt =====
-- What one round of `pump` plans.
use repeatr.Base.{
  ◌≡◌, ◌≢◌, refl, ap, ◌∙◌, ◌⊎◌, inl, inr, true, false, none, some, [], ◌∷◌, Text, arith, ◌==◌,
  nat_eq, text_eq, Option, Bool-cases, if◌then◌else◌, List,
}
use repeatr.Base.Dict.{Dict, lookup, NodupKeys, lookup-nil, lookup-insert, insert-NodupKeys}
use repeatr.Formula.{Formula}
use repeatr.Cassandra.{Commission, KnowledgeBase, select_commissions}
use repeatr.Cassandra.Laws.{In, InValues, select_commissions-In, uses_any}
use repeatr.Foreman.{Foreman, fill, fill_loop, consider, add_reason}
use repeatr.Foreman.Valid.{IsReady, planned, plan_over, push_reasons-IsReady, planned-push_reasons}

add_reason-NodupKeys :
    (id : Text) (f : Option Formula) (reasons : Dict Text Formula)
    → NodupKeys reasons
    → NodupKeys (add_reason id f reasons)
add_reason-NodupKeys id none reasons d = d
add_reason-NodupKeys id (some f) reasons d = insert-NodupKeys id f reasons d

-- Adding the formula `g` under `c` leaves or puts `g` where `g` was, or where nothing was.
lookup-add_reason :
    (id c : Text) (g : Option Formula) (reasons : Dict Text Formula)
    → (lookup id reasons ≡ none) ⊎ (lookup id reasons ≡ g)
    → lookup id (add_reason c g reasons) ≡ (if c == id then g else lookup id reasons)
lookup-add_reason id c none reasons h = ground arith
lookup-add_reason id c (some f) reasons h = lookup-insert id c f reasons

lookup-add_other :
    (id c : Text) (g : Option Formula) (reasons : Dict Text Formula)
    → (c == id) ≡ false
    → lookup id (add_reason c g reasons) ≡ lookup id reasons
lookup-add_other id c none reasons h = refl
lookup-add_other id c (some f) reasons h = ground (arith, lookup-insert id c f reasons)

fill_loop-NodupKeys :
    (kb : KnowledgeBase) (cs : List Commission) (reasons : Dict Text Formula)
    → NodupKeys reasons
    → NodupKeys (fill_loop kb cs reasons)
unfolding fill_loop
fill_loop-NodupKeys kb [] reasons d = d
fill_loop-NodupKeys kb (c ∷ cs) reasons d =
    fill_loop-NodupKeys kb cs (add_reason c.id (fill kb c.formula) reasons)
      (add_reason-NodupKeys c.id (fill kb c.formula) reasons d)

In-other :
    (c d : Commission) (cs : List Commission) (id : Text)
    → In c (d ∷ cs)
    → c.id ≡ id
    → (d.id == id) ≡ false
    → In c cs
In-other c d cs id (inl e) same other =
    let ids : c.id ≡ d.id = ap (λ x. x.id) e in ground (arith, ids)
In-other c d cs id (inr m) same other = m

module _ (kb : KnowledgeBase) (id : Text) where
  fill_loop-absent :
      (cs : List Commission) (reasons : Dict Text Formula)
      → ((d : Commission) → In d cs → d.id ≢ id)
      → lookup id (fill_loop kb cs reasons) ≡ lookup id reasons
  unfolding fill_loop
  fill_loop-absent [] reasons h = refl
  fill_loop-absent (c ∷ cs) reasons h =
      fill_loop-absent cs (add_reason c.id (fill kb c.formula) reasons) (λ d m. h d (inr m))
      ∙ lookup-add_other id c.id (fill kb c.formula) reasons (ground (arith, h c (inl refl)))

  module _ (g : Option Formula) where
    -- Every commission of the list that has the id gives `g`.
    abbrev Agrees : List Commission → Type 0
    Agrees cs = (d : Commission) → In d cs → d.id ≡ id → fill kb d.formula ≡ g

    fill_loop-kept :
        (cs : List Commission) (reasons : Dict Text Formula)
        → Agrees cs
        → lookup id reasons ≡ g
        → lookup id (fill_loop kb cs reasons) ≡ g
    unfolding fill_loop
    fill_loop-kept [] reasons h e = e
    fill_loop-kept (c ∷ cs) reasons h e =
        fill_loop-kept cs (add_reason c.id (fill kb c.formula) reasons) (λ d m. h d (inr m))
          (ground (
            arith,
            h c (inl refl),
            lookup-add_reason id c.id g reasons (inr e),
            lookup-add_other id c.id (fill kb c.formula) reasons,
          ))

    fill_loop-found :
        (c : Commission) (cs : List Commission) (reasons : Dict Text Formula)
        → Agrees cs
        → lookup id reasons ≡ none
        → In c cs
        → c.id ≡ id
        → lookup id (fill_loop kb cs reasons) ≡ g
    unfolding fill_loop
    fill_loop-found c [] reasons h e m same = absurd m
    fill_loop-found c (d ∷ cs) reasons h e m same = elim (Bool-cases (d.id == id)) [
      | inl here ↦
          fill_loop-kept cs (add_reason d.id (fill kb d.formula) reasons) (λ x n. h x (inr n))
            (ground (arith, h d (inl refl), lookup-add_reason id d.id g reasons (inl e)))
      | inr other ↦
          fill_loop-found c cs (add_reason d.id (fill kb d.formula) reasons) (λ x n. h x (inr n))
            (ground (arith, lookup-add_other id d.id (fill kb d.formula) reasons))
            (In-other c d cs id m same other) same
    ]

-- Two commissions of the map that have the same id are the same.
abbrev pub UniqueIds : KnowledgeBase → Type 0
UniqueIds kb =
    (c d : Commission) → InValues c kb.commissions → InValues d kb.commissions → c.id ≡ d.id → c ≡ d

-- From valid plans, where no two commissions share an id, for a commission of the knowledge base
-- with an input that is named after the updated catalog: if its formula can be
-- filled, then the filled formula is what is planned for it from now on, and else what was planned
-- for it stays planned.
pub planned-consider :
    (id : Text) (man : Foreman) (c : Commission)
    → IsReady man
    → UniqueIds man.cassy
    → InValues c man.cassy.commissions
    → uses_any (id ∷ []) c.formula.inputs ≡ true
    → planned c.id (consider id man).current_plans
      ≡ plan_over c.id (fill man.cassy c.formula) (planned c.id man.current_plans)
unfolding consider
planned-consider id man c v unique m used =
    planned-push_reasons c.id (fill_loop man.cassy marked []) man v
      (fill_loop-NodupKeys man.cassy marked [] tt)
    ∙ rw
        (fill_loop-found man.cassy c.id (fill man.cassy c.formula) c marked [] agrees
          (lookup-nil {V = Formula} c.id)
          ((select_commissions-In c man.cassy (id ∷ [])).1 (m, used)) refl)
        refl
  where
    marked : List Commission
    marked = select_commissions man.cassy (id ∷ [])

    agrees :
        (d : Commission)
        → In d marked
        → d.id ≡ c.id
        → fill man.cassy d.formula ≡ fill man.cassy c.formula
    agrees d n same =
        ap (λ x. fill man.cassy x.formula)
          (unique d c ((select_commissions-In d man.cassy (id ∷ [])).0 n).0 m same)

-- From valid plans: what is planned for an id stays as it is when no commission of that id has an input that is named
-- after the updated catalog. The invariant of the plans is kept.
pub consider-untouched :
    (id reason : Text) (man : Foreman)
    → IsReady man
    → ((d : Commission)
        → InValues d man.cassy.commissions
        → d.id ≡ reason
        → uses_any (id ∷ []) d.formula.inputs ≡ false)
    → IsReady (consider id man)
      × (planned reason (consider id man).current_plans ≡ planned reason man.current_plans)
unfolding consider
consider-untouched id reason man v unused = (
  push_reasons-IsReady (fill_loop man.cassy marked []) man v,
  planned-push_reasons reason (fill_loop man.cassy marked []) man v
        (fill_loop-NodupKeys man.cassy marked [] tt)
      ∙ rw (fill_loop-absent man.cassy reason marked [] others, lookup-nil) refl,
)
  where
    marked : List Commission
    marked = select_commissions man.cassy (id ∷ [])

    others : (d : Commission) → In d marked → d.id ≢ reason
    others d n same =
        let (m, used) = (select_commissions-In d man.cassy (id ∷ [])).0 n in
        ground (arith, unused d m same)

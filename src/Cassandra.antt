-- ===== src/Cassandra.antt =====
-- rsrch/model/cassandra/impl/mem: the knowledge base in memory. The mutex makes each method one
-- step. A channel is an address, and `sent` is what was sent to it so far; a send never fails.
pub mod Laws
pub mod Valid
mod Examples
use repeatr.Base.{
  ℕ, Option, none, some, List, [], ◌∷◌, ◌++◌, map, Text, text_eq, nat_eq, ◌==◌, if◌then◌else◌,
}
use repeatr.Base.Dict.{Dict, lookup, insert}
use repeatr.Formula.{Formula, Input}
use repeatr.Catalog.{Book}

-- `type Commission struct` of rsrch/model/formula
pub record Commission : Type 0 where
  pub id : Text
  pub formula : Formula

-- `type Base struct`; `formulas` and `results` are written by no method.
pub record KnowledgeBase : Type 0 where
  pub commissions : Dict Text Commission
  pub catalogs : Dict Text Book
  pub formulas : Dict Text Formula
  pub results : Dict Text Formula
  pub commission_observers : List ℕ
  pub catalog_observers : List ℕ
  pub sent : ℕ → List Text

-- `New`, with the channels that there are.
unfoldable pub new : (ℕ → List Text) → KnowledgeBase
new sent = record {
  commissions = [];
  catalogs = [];
  formulas = [];
  results = [];
  commission_observers = [];
  catalog_observers = [];
  sent = sent;
}

-- `ch <- v`
abbrev pub send : ℕ → Text → (ℕ → List Text) → ℕ → List Text
send ch v sent c = if c == ch then sent c ++ (v ∷ []) else sent c

-- `for _, obvs := range observers { obvs <- v }`
unfoldable pub send_all : List ℕ → Text → (ℕ → List Text) → ℕ → List Text
send_all [] v sent = sent
send_all (ch ∷ chs) v sent = send_all chs v (send ch v sent)

-- `Catalog`
unfoldable pub catalog : KnowledgeBase → Text → Option Book
catalog kb id = lookup id kb.catalogs

-- `ListCatalogs`
unfoldable pub list_catalogs : KnowledgeBase → List Text
list_catalogs kb = map (λ (k, _). k) kb.catalogs

-- `ObserveCatalogs`
unfoldable pub observe_catalogs : ℕ → KnowledgeBase → KnowledgeBase
observe_catalogs ch kb = record kb { catalog_observers = kb.catalog_observers ++ (ch ∷ []) }

-- `PublishCatalog`
unfoldable pub publish_catalog : Book → KnowledgeBase → KnowledgeBase
unfolding send_all
publish_catalog book kb = record kb {
  catalogs = insert book.id book kb.catalogs;
  sent = send_all kb.catalog_observers book.id kb.sent;
}

-- The two inner loops of `SelectCommissionsByInputCatalog`, for one commission.
unfoldable pub matches_of : Commission → Text → List Text → List Commission
matches_of c iname [] = []
matches_of c iname (id ∷ ids) =
    let rest = matches_of c iname ids in if iname == id then c ∷ rest else rest

unfoldable pub matches_in : Commission → Dict Text Input → List Text → List Commission
unfolding matches_of
matches_in c [] ids = []
matches_in c ((iname, _) ∷ inputs) ids = matches_of c iname ids ++ matches_in c inputs ids

unfoldable pub select_loop : Dict Text Commission → List Text → List Commission
unfolding matches_in
select_loop [] ids = []
select_loop ((_, c) ∷ commissions) ids =
    matches_in c c.formula.inputs ids ++ select_loop commissions ids

-- `SelectCommissionsByInputCatalog`
unfoldable pub select_commissions : KnowledgeBase → List Text → List Commission
unfolding select_loop
select_commissions kb ids = select_loop kb.commissions ids

-- `ObserveCommissions`
unfoldable pub observe_commissions : ℕ → KnowledgeBase → KnowledgeBase
observe_commissions ch kb = record kb {
  commission_observers = kb.commission_observers ++ (ch ∷ []);
}

-- `PublishCommission`
unfoldable pub publish_commission : Commission → KnowledgeBase → KnowledgeBase
unfolding send_all
publish_commission c kb = record kb {
  commissions = insert c.id c kb.commissions;
  sent = send_all kb.commission_observers c.id kb.sent;
}

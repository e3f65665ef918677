-- ===== src/Cassandra/Examples.antt =====
-- The theorems on the knowledge base at a concrete one.
use repeatr.Base.{◌≡◌, none, some, [], ◌∷◌, ◌++◌, str, text_eq, nat_eq, ◌==◌, if◌then◌else◌}
use repeatr.Formula.{Action, Input}
use repeatr.Catalog.{Book}
use repeatr.Cassandra.{
  Commission, KnowledgeBase, new, catalog, observe_catalogs, publish_catalog, publish_commission,
}
use repeatr.Cassandra.Laws.{copies, publish_catalog_lem}

abbrev no_action : Action
no_action = record {
  entrypoint = [];
  cwd = [];
  env = [];
  hostname = [];
  policy = [];
  cradle = none;
  mounts = [];
}

abbrev gcc_input : Input
gcc_input = record { kind = str "tar"; hash = []; warehouses = []; mount_path = str "/" }

abbrev commission : Commission
commission = record {
  id = str "c";
  formula = record { inputs = (str "gcc", gcc_input) ∷ []; action = no_action; outputs = [] };
}

abbrev book : Book
book = record { id = str "gcc"; tracks = [] }

abbrev base : KnowledgeBase
base = publish_commission commission (observe_catalogs 3 (new (λ _. [])))

publish_catalog_lem_example :
    (catalog (publish_catalog book base) (str "gcc")
      ≡ (if book.id == str "gcc" then some book else catalog base (str "gcc")))
    × ((publish_catalog book base).sent 3 ≡ base.sent 3 ++ copies 3 base.catalog_observers book.id)
    × ((publish_catalog book base).commissions ≡ base.commissions)
publish_catalog_lem_example = publish_catalog_lem book base (str "gcc") 3

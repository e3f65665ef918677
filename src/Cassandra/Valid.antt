-- ===== src/Cassandra/Valid.antt =====
-- The invariant of the knowledge base's catalogs, and that publications keep it.
use repeatr.Base.{ℕ, ◌≡◌, some, List, Text, arith, text_eq}
use repeatr.Base.Dict.{NodupKeys, lookup-nil, lookup-insert}
use repeatr.Catalog.{Book}
use repeatr.Cassandra.{KnowledgeBase, Commission, new, catalog, publish_catalog, publish_commission}

-- A catalog stands under its id, and has no track twice.
abbrev pub IsValid : KnowledgeBase → Type 0
IsValid kb = (id : Text) (b : Book) → catalog kb id ≡ some b → (b.id ≡ id) × NodupKeys b.tracks

pub new-IsValid : (sent : ℕ → List Text) → IsValid (new sent)
unfolding new catalog
new-IsValid sent id b e = cc (lookup-nil {V = Book} id)

pub publish_catalog-IsValid :
    (book : Book) (kb : KnowledgeBase)
    → NodupKeys book.tracks
    → IsValid kb
    → IsValid (publish_catalog book kb)
unfolding publish_catalog catalog
publish_catalog-IsValid book kb d v id b e =
    ground (arith, v id b, lookup-insert id book.id book kb.catalogs)

pub publish_commission-IsValid :
    (c : Commission) (kb : KnowledgeBase) → IsValid kb → IsValid (publish_commission c kb)
unfolding publish_commission catalog
publish_commission-IsValid c kb v id b e = v id b e

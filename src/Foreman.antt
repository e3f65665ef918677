-- ===== src/Foreman.antt =====
-- rsrch/actors/foreman/foreman.go and releaser.go: the loop that turns catalog updates into plans
-- and finished plans into new catalog editions. The channel of updates is an address of the
-- knowledge base with a count of what was received from it; its bound of 100 is not modelled. The
-- executor is an argument: what `Start` and `Wait` give for a formula, or none where they panic.
pub mod Valid
pub mod Fill
pub mod Pump
pub mod Releases
pub mod Evoke
mod Examples
use repeatr.Base.{
  ℕ, suc, Option, none, some, List, [], ◌∷◌, ◌++◌, Text, str, text_eq, get_elem?, if◌then◌else◌,
}
use repeatr.Base.Dict.{Dict, insert}
use repeatr.Formula.{Formula, Input, Output, Ware}
use repeatr.Catalog.{Book, latest, is_no_sku, release}
use repeatr.Catalog
use repeatr.Cassandra.{
  Commission, KnowledgeBase, catalog, list_catalogs, observe_catalogs, publish_catalog,
  select_commissions,
}
use repeatr.Plans.{Plan, Plans, new_plans, push, lease_next, unlease, finish}
use repeatr.Plans.Life.{allocate}

-- `type Foreman struct`. `fresh` is the address of the next `&plan{...}`.
pub record Foreman : Type 0 where
  pub cassy : KnowledgeBase
  pub ch_new_catalog : ℕ
  pub received : ℕ
  pub ch_old_catalog : List Text
  pub current_plans : Plans
  pub fresh : ℕ

-- `register`, with the address of the channel that it makes.
unfoldable pub register : ℕ → (ℕ → Plan) → KnowledgeBase → Foreman
register ch heap kb = record {
  cassy = observe_catalogs ch kb;
  ch_new_catalog = ch;
  received = 0;
  ch_old_catalog = list_catalogs kb;
  current_plans = new_plans heap;
  fresh = 0;
}

-- The two cases of the `select` of `pump`.
pub data Feed : Type 0 where
  new_catalog old_catalog : Feed

abbrev receive_new : Foreman → Option Text → Option (Text × Foreman)
receive_new man none = none
receive_new man (some id) = some (id, record man { received = suc man.received })

abbrev receive_old : Foreman → List Text → Option (Text × Foreman)
receive_old man [] = none
receive_old man (id ∷ ids) = some (id, record man { ch_old_catalog = ids })

-- A receive from one of the channels; `none` where it would block.
unfoldable pub receive : Feed → Foreman → Option (Text × Foreman)
receive new_catalog man =
    receive_new man (get_elem? (man.cassy.sent man.ch_new_catalog) man.received)
receive old_catalog man = receive_old man man.ch_old_catalog

-- The latest product of a catalog, if there are both.
abbrev pub ready : Option Book → Option Ware
ready none = none
ready (some b) = if is_no_sku (latest b) then none else some (latest b)

abbrev filled : Text → Input → Option Ware → Option (Dict Text Input) → Option (Dict Text Input)
filled iname i none rest = none
filled iname i (some w) none = none
filled iname i (some w) (some rest) = some ((iname, record i { hash = w.hash }) ∷ rest)

-- The inner loop of the fill phase; `none` where the formula does not fly.
unfoldable pub fill_inputs : KnowledgeBase → Dict Text Input → Option (Dict Text Input)
fill_inputs kb [] = some []
fill_inputs kb ((iname, i) ∷ inputs) =
    filled iname i (ready (catalog kb iname)) (fill_inputs kb inputs)

abbrev with_inputs : Formula → Option (Dict Text Input) → Option Formula
with_inputs f none = none
with_inputs f (some inputs) = some (record f { inputs = inputs })

-- The formula of a commission with the latest product in every input.
-- The clone that is filled is equal to the commission's formula, and stands for it here.
unfoldable pub fill : KnowledgeBase → Formula → Option Formula
unfolding fill_inputs
fill kb f = with_inputs f (fill_inputs kb f.inputs)

abbrev add_reason : Text → Option Formula → Dict Text Formula → Dict Text Formula
add_reason id none reasons = reasons
add_reason id (some f) reasons = insert id f reasons

-- The outer loop of the fill phase.
unfoldable pub fill_loop : KnowledgeBase → List Commission → Dict Text Formula → Dict Text Formula
unfolding fill
fill_loop kb [] reasons = reasons
fill_loop kb (c ∷ cs) reasons = fill_loop kb cs (add_reason c.id (fill kb c.formula) reasons)

-- `man.currentPlans.Push(&plan{...})`
unfoldable pub push_reason : Text → Formula → Foreman → Foreman
push_reason reason f man = record man {
  current_plans = push man.fresh (
      allocate man.fresh (record { formula = f; commissioned_by = reason; leased_as = [] })
        man.current_plans);
  fresh = suc man.fresh;
}

-- The planning phase.
unfoldable pub push_reasons : Dict Text Formula → Foreman → Foreman
unfolding push_reason
push_reasons [] man = man
push_reasons ((reason, f) ∷ reasons) man = push_reasons reasons (push_reason reason f man)

-- `pump` from the mark phase on, for the catalog that it received.
unfoldable pub consider : Text → Foreman → Foreman
unfolding fill_loop push_reasons
consider id man = push_reasons (fill_loop man.cassy (select_commissions man.cassy (id ∷ [])) []) man

abbrev consider_received : Option (Text × Foreman) → Option Foreman
consider_received none = none
consider_received (some (id, man)) = some (consider id man)

-- `pump`; `none` where it would block.
unfoldable pub pump : Feed → Foreman → Option Foreman
unfolding consider receive
pump feed man = consider_received (receive feed man)

-- The name of the catalog that a commission's output is released to.
abbrev pub release_id : Text → Text → Text
release_id commission out_name = commission ++ str "::" ++ out_name

abbrev pub book_or_new : Text → Option Book → Book
book_or_new id none = Catalog.new id
book_or_new id (some b) = b

-- One round of the loop of `makeReleases`.
unfoldable pub edition : KnowledgeBase → Text → Text → Output → Book
edition kb commission out_name out =
    let id = release_id commission out_name in
    release [] (record { kind = out.kind; hash = out.hash }) (book_or_new id (catalog kb id))

-- `makeReleases`
unfoldable pub make_releases : KnowledgeBase → Text → Dict Text Output → List Book
unfolding edition
make_releases kb commission [] = []
make_releases kb commission ((out_name, out) ∷ outputs) =
    edition kb commission out_name out ∷ make_releases kb commission outputs

-- The last loop of `evoke`.
unfoldable pub publish_all : List Book → KnowledgeBase → KnowledgeBase
publish_all [] kb = kb
publish_all (ed ∷ eds) kb = publish_all eds (publish_catalog ed kb)

-- How a call of `evoke` ends.
pub data Outcome : Type 0 where
  idle panicked released : Outcome

-- From `Launch` on, with the plan and what the executor gives. The deferred `Unlease` runs on both
-- ways out.
unfoldable pub conclude : Text → Plan → Option (Dict Text Output) → Foreman → Foreman × Outcome
unfolding make_releases publish_all
conclude token p none man =
    (record man { current_plans = unlease token man.current_plans }, panicked)
conclude token p (some outputs) man = (
  record man {
    cassy = publish_all (make_releases man.cassy p.commissioned_by outputs) man.cassy;
    current_plans = unlease token (finish token man.current_plans);
  },
  released,
)

-- After `LeaseNext`, which gives the empty token where there is no plan to lease; `guid.New()` never gives it.
abbrev evoke_leased :
    Text → (Formula → Option (Dict Text Output)) → Foreman → Plans × Option ℕ → Foreman × Outcome
evoke_leased token execute man (ps, none) = (record man { current_plans = ps }, idle)
evoke_leased token execute man (ps, some p) =
    conclude token (ps.heap p) (execute (ps.heap p).formula) (record man { current_plans = ps })

-- `evoke`, where `token` is what `guid.New()` gives.
unfoldable pub evoke : Text → (Formula → Option (Dict Text Output)) → Foreman → Foreman × Outcome
unfolding conclude
evoke token execute man = evoke_leased token execute man (lease_next token man.current_plans)

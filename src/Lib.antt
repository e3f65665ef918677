-- ===== src/Lib.antt =====
-- Repeatr: models of the parts of repeatr that carry its own logic, and what is proved of them.
--
-- Repeatr runs formulas, `action(inputs) -> (outputs)`, where inputs and outputs are named by the
-- hashes of their content. A commission is a formula whose inputs are named after catalogs. The
-- foreman waits for catalogs to be updated, fills the latest products into the commissions that use
-- them, queues the formulas as plans, runs the plans, and publishes their outputs as new editions
-- of catalogs, which updates catalogs in turn.
--
-- Which file models which part:
--   Formula.antt      api/def/formula.go, formulaAction.go, formulaMounts.go, ware.go: the types.
--   Formula/Clone     `Clone` of formulas and their parts: formula_ops.go, formulaAction_ops.go,
--                     formulaMounts_ops.go in api/def.
--   Formula/Patch     `Env.Merge` and `ApplyPatch`.
--   Formula/Hash      `Formula.Hash`, and `Stage2.ID` of rsrch/model/formula/stages.go.
--   Formula/Decode    the fixups after decoding inputs and outputs: formulaMounts_serial.go.
--   Base58.antt       api/def/base58.go: `b58encode` and `b58decode`.
--   Guid.antt         lib/guid/guid.go: `New`, as a function from the globals to the next globals.
--   Catalog.antt      rsrch/model/catalog/catalog.go: `Book`, `Latest`, `All`, `Release`, over values;
--                     Catalog/Slices has `Release` once more over slices that share arrays.
--   Cassandra.antt    rsrch/model/cassandra/impl/mem: the knowledge base; a method is a function from
--                     its state to the next one.
--   Plans.antt        rsrch/actors/foreman/plans.go: the queue of plans, its leases and indexes.
--   Foreman.antt      rsrch/actors/foreman/foreman.go, releaser.go: `register`, `pump`, `evoke`,
--                     `makeReleases`.
--   Cradle.antt       core/executor/cradle: `CapsForPolicy`, `UserinfoForPolicy`, `ApplyDefaults`.
--   Base.antt         numbers, texts as lists of bytes, and Go's maps as association lists.
--   Filters.antt      `AsStringSlice`, `FromStringSlice` and the defaults of filters:
--                     formulaMounts_serial.go and formulaMounts_ops.go in api/def.
--   Provision.antt    core/executor/util/provision.go: `ProvisionInputs` and `PreserveOutputs`, with the
--                     reports of their goroutines in any order, and `AssembleFilesystem`.
--   Failures.antt     api/def/errors.go, and the names of errors of runrecord_serial.go.
--   Rio.antt          rio/filter, and `ConvertFilterConfig` and `EvaluateConfig` of rio/contract.go.
--   Treewalk.antt     lib/treewalk/walk.go: `Walk`, on fuel; Treewalk/Rule.antt has the rule by which a walk keeps
--                     what its visits keep, and ends where a measure falls with each child.
--   Fs.antt           `Metadata` with `FileMode` and `Marshal` of lib/fs/metadata.go; the codec library is the
--                     list of items it is told to write. Fs/Device.antt: `Mkdev` and `ReadDev` of lib/fspatch.
--   Fshash.antt       lib/fshash: `Normalize`, the bucket in memory and its iteration; Fshash/State.antt: `Hash`. The
--                     fuel of the walk is one more than the lines.
--   Iofilter.antt     lib/iofilter/indenter.go: the `Reframer`. The fuel of the loop is a unit for each byte.
--   Emplace.antt      lib/fs/emplacements.go over any operating system: `PlaceFile` in Emplace/Place.antt, the making
--                     of directories in Emplace/Mkdir.antt, with a level of fuel for each byte of a path.
--   Transmat.antt     rio/transmat: the dispatching transmat of mux, the cache of directories of impl/cachedir,
--                     `MustBeType` of mixins, and the detection of compression of impl/tar;
--                     Transmat/Tar.antt: `Materialize` of impl/tar; Transmat/Scan.antt: its `Scan`.
--   Placer.antt       rio/placer/assembler.go: `Assemble` and `Teardown`, over any placer; it makes its directories
--                     with Emplace/Mkdir.antt.
--   Runner.antt       core/actors/runner: `StartRun`, `FollowEvents`, `Run` and the record of a run; a run is the
--                     list of the events it sends.
-- In each part, `Laws` and the files beside it have the proofs, and `Examples` has the theorems at
-- concrete inputs.
--
-- Conventions. A Go map is a list of pairs; a `range` over it goes in the order of the list, and the
-- theorems hold for every list, so for every order that Go may take. A pointer is an address where
-- the code compares pointers or writes through them (the plans), and a value elsewhere. A panic is
-- `none`, or an outcome of its own. The clock, random numbers, the codec, SHA-384, base64 and the
-- executor are arguments. A mutex makes a method one step. Natural numbers stand for `big.Int`, which
-- has no bound; the loops of base 58 recurse on fuel that starts at the number itself, which is enough
-- since each round divides it.
--
-- Not modelled: what only calls the operating system, the network or a library (the transmats other than tar, the
-- warehouses, the streams of archives, the executors, the placers other than the assembler, the
-- command line), and the bounds of channels; nor are lib/streamer, the scan of files in lib/fs,
-- FillBucket of lib/fshash, and the order of mounts in the codec.
pub mod Base
pub mod Formula
pub mod Plans
pub mod Base58
pub mod Guid
pub mod Catalog
pub mod Cassandra
pub mod Foreman
pub mod Cradle
pub mod Filters
pub mod Provision
pub mod Failures
pub mod Rio
pub mod Treewalk
pub mod Fs
pub mod Fshash
pub mod Iofilter
pub mod Emplace
pub mod Transmat
pub mod Placer
pub mod Runner

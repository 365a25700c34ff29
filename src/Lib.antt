-- ===== src/Lib.antt =====
-- A verification library for the Ergo implementation of the Rosetta API.
--
-- The program follows an Ergo node. The indexer (pkg/indexer) is called by the syncer of
-- rosetta-sdk-go: it asks the node for a block, finds the coins that the block spends, waiting for
-- blocks that are being processed if it has to, and converts the block (pkg/rosetta) for the
-- storage. The endpoints (pkg/services) answer from the storage, and from the node for the
-- mempool. Each file here models one part:
--
--   Base        shared: tests, results with errors, panics and deadlocks, integers, maps, lists
--   Decimal     strconv.FormatInt, and the decimal texts that strconv and math/big read
--   Sdk         the data types of rosetta-sdk-go that the program builds and reads
--   Ergo        pkg/ergo: Types (types/*.go), Constants (types.go), Client (client.go), and
--               Inputs (utils.go, `GetInputsForTxs`), Node (node.go, `StartErgoNode`)
--   Rosetta     pkg/rosetta/converter.go: Header (`HeaderToRosettaBlock`, `PeerToRosettaPeer`) and
--               Converter (`BlockConverter`, with `tx_to_rosetta_tx` for `TxToRosettaTx` and so on)
--   Indexer     pkg/indexer: WaitTable (wait_table.go), and of indexer.go State (`Indexer`),
--               Handlers (`BlockSeen`, `BlockAdded`, `BlockRemoved`), Waiting (`checkHeaderMatch`,
--               `findCoin`), Fetching (`findCoins`), Blocks (`Block`, `getBlockByIdentifier`),
--               Negative (`ensureNegativeValueInputs`), Genesis (`bootstrapGenesisState`, the
--               index to start from, `NetworkStatus`) and Sync (`waitForNode`, `Sync`).
--               Interleaving has the runs of all of these, Listeners the same in small steps, with
--               the outstanding waits counted, and Released the waits of one call of `findCoins`
--               beside the others.
--               Storage is the interface of the storage modules that the program calls
--   Errutil     pkg/errutil/errutil.go
--   Config      pkg/config/config.go
--   Services    pkg/services: Account, Block, Mempool and Network; Response is what an endpoint
--               returns
--   Server      pkg/server/router.go, and the constructors of the services
--   Storage     pkg/storage: the opening of the database, and the callbacks of the modules
--   Cmd         cmd/run.go, and the exit status of main.go; Root is cmd/root.go and cmd/version.go
--   Util        pkg/util/util.go and pkg/logger/logger.go
--   Samples     concrete data for the tests, which stand in the modules named Tests
--
-- A Go name is written in snake case: `findCoinForInput` is `find_coin_for_input`. A call that
-- returns a value and an error is a `Result`, which also tells a panic from a call that blocks on
-- a held mutex. A method that changes its object takes the state and returns the one that it
-- leaves, also where it fails. A pointer that may be nil is an `Option`, and to follow it is
-- `deref`; the identifiers that the asserter of rosetta-sdk-go requires in every block are taken as
-- set. The nil client and the nil storage of the offline mode are ones whose every use panics. A map is an association list with one entry for each key; no result depends on the order
-- of the entries.
--
-- Parameters: the HTTP transport and the JSON decoders (`Network`), the storage modules over an
-- abstract database (`Storage`), `NegateValue`, `MarshalMap`, `types.Hash` and `asserter.Block`, the
-- operating system and the embedded files (`Host`, `NodeHost`), badger (`Libraries`), the syncer
-- (`Syncer`), the sizes of the memory (`Megabytes`), and what zap, errgroup, the asserters and the
-- signals do to a run of the command (`Startup`).
--
-- Bounds: int64 counters wrap (`inc64`, `dec64`), a port is read as an int64. The counter of the
-- listeners, an int, is taken as an int64. The loops over lists are over lists here. The loops of
-- `findCoin`, `findCoins`, `Block`, `waitForNode` and `MonitorMemoryUsage`, which run until the
-- context is cancelled, are over a list of what the rest of the world does in each round, and the
-- context is cancelled when it is used up: each run that ends has such a list, and no result is an
-- artefact of its end.
--
-- Not modelled: the run of the syncer, which is a library that calls the handlers; what the
-- logger writes; the reading of the command line, which is a library's; the types of
-- pkg/ergo/types that nothing reads.
pub mod Base
pub mod Decimal
pub mod Sdk
pub mod Ergo
pub mod Rosetta
pub mod Indexer
pub mod Errutil
pub mod Config
pub mod Services
pub mod Server
pub mod Storage
pub mod Cmd
pub mod Util
pub mod Samples

-- ===== src/Indexer/Genesis.antt =====
-- The start of `Sync` of pkg/indexer/indexer.go up to the syncer's run, with the bootstrap of the
-- state before the genesis block, and `NetworkStatus`.
pub mod Bootstrap
pub mod Tests
use rosetta_ergo.Base.{
  ℤ, pos, negsuc, String, Option, none, some, List, [], ◌∷◌, map, Result, ok, err, panics, blocks,
  errorf, str, sign, plus, minus, null, inc64, ◌>>=◌,
}
use rosetta_ergo.Decimal.{parse_int, format_int}
use rosetta_ergo.Sdk.{AccountCoin, Amount, BlockIdentifier, Currency, RosettaPeer}
use rosetta_ergo.Ergo.Types.{BlockHeader, Peer}
use rosetta_ergo.Ergo.Client.{Client, get_connected_peers, get_latest_block_headers}
use rosetta_ergo.Rosetta.Header.{header_to_rosetta_block, peer_to_rosetta_peer}
use rosetta_ergo.Config.{BootstrapBalance, Configuration}
use rosetta_ergo.Indexer.Storage.{AccountBalance, Storage}

abbrev pub initial_start_index : ℤ
initial_start_index = negsuc 0

-- A balance that can be bootstrapped is a positive integer.
unfoldable pub check_balance : String → Result (Unit {0})
check_balance value = elim (parse_int value) [
  | none ↦ err (errorf "%s is not an integer" (str value ∷ []))
  | some z ↦ elim (sign z) [
    | plus ↦ ok tt
    | null ↦ err (errorf "cannot bootstrap zero or negative balance %s" (str (format_int z) ∷ []))
    | minus ↦ err (errorf "cannot bootstrap zero or negative balance %s" (str (format_int z) ∷ []))
  ]
]

module _ {DB : Type 0} (s : Storage DB) (genesis : BlockIdentifier) where
  -- The loop, on the transaction's view of the database.
  unfoldable pub set_balances : List BootstrapBalance → DB → Result (Unit {0}) × DB
  unfolding check_balance
  set_balances [] view = (ok tt, view)
  set_balances (b ∷ balances) view = elim (check_balance b.value) [
    | ok u ↦
        let amount : Amount = record { value = b.value; currency = b.currency } in
        let (r, view') = s.set_balance b.account amount genesis view in
        elim r [
          | ok u' ↦ set_balances balances view'
          | err e ↦ (err e, view')
          | panics ↦ (panics, view')
          | blocks ↦ (blocks, view')
        ]
    | err e ↦ (err e, view)
    | panics ↦ (panics, view)
    | blocks ↦ (blocks, view)
  ]

  -- The transaction is committed after the loop, and discarded if the loop returns early.
  abbrev pub commit_or_discard : Result (Unit {0}) × DB → DB → Result (Unit {0}) × DB
  commit_or_discard (ok u, view) db = s.commit view db
  commit_or_discard (err e, view) db = (err e, db)
  commit_or_discard (panics, view) db = (panics, db)
  commit_or_discard (blocks, view) db = (blocks, db)

  unfoldable pub bootstrap_balances : List BootstrapBalance → DB → Result (Unit {0}) × DB
  unfolding set_balances
  bootstrap_balances balances db = commit_or_discard (set_balances balances db) db

  abbrev pub imported : AccountCoin → AccountBalance
  imported c = record { account = c.account; coins = c.coin ∷ [] }

  abbrev pub import_coins : List AccountCoin → Result (Unit {0}) × DB → Result (Unit {0}) × DB
  import_coins coins (ok u, db) = s.set_coins_imported (map imported coins) db
  import_coins coins (err e, db) = (err e, db)
  import_coins coins (panics, db) = (panics, db)
  import_coins coins (blocks, db) = (blocks, db)

  unfoldable pub bootstrap_genesis_state :
      List AccountCoin → List BootstrapBalance → DB → Result (Unit {0}) × DB
  unfolding bootstrap_balances
  bootstrap_genesis_state utxos balances db = import_coins utxos (bootstrap_balances balances db)

  abbrev pub first_index : Result (Unit {0}) × DB → Result ℤ × DB
  first_index (ok u, db) = (ok initial_start_index, db)
  first_index (err e, db) = (err e, db)
  first_index (panics, db) = (panics, db)
  first_index (blocks, db) = (blocks, db)

  -- The index to start from: after the head if there is one, and from the first block after the
  -- bootstrap if there is none. An error of the bootstrap ends the process in the logger.
  unfoldable pub start_index : List AccountCoin → List BootstrapBalance → DB → Result ℤ × DB
  unfolding bootstrap_genesis_state
  start_index utxos balances db = elim (s.get_head_block_identifier db) [
    | ok head ↦ (ok (inc64 head.index), db)
    | err e ↦ first_index (bootstrap_genesis_state utxos balances db)
    | panics ↦ (panics, db)
    | blocks ↦ (blocks, db)
  ]

-- The status that the syncer asks for; that of the endpoint comes from the storage.
pub record NodeStatus (Metadata : Type 0) : Type 0 where
  pub current_block_identifier : BlockIdentifier
  pub current_block_timestamp : ℤ
  pub genesis_block_identifier : BlockIdentifier
  pub peers : List (RosettaPeer Metadata)

module _ {Metadata : Type 0} (marshal_map : Peer → Result Metadata) where
  unfoldable pub rosetta_peers : List Peer → Result (List (RosettaPeer Metadata))
  rosetta_peers [] = ok []
  rosetta_peers (p ∷ ps) = do
    peer ← peer_to_rosetta_peer marshal_map p
    peers ← rosetta_peers ps
    ok (peer ∷ peers)

  abbrev pub latest : List BlockHeader → Result BlockHeader
  latest [] = err (errorf "failed to get latest block header from node" [])
  latest (header ∷ headers) = ok header

  unfoldable pub node_status : Configuration → Client → Result (NodeStatus Metadata)
  unfolding rosetta_peers
  node_status cfg e = do
    connected ← get_connected_peers e
    peers ← rosetta_peers connected
    headers ← get_latest_block_headers e (pos 1)
    header ← latest headers
    let block = header_to_rosetta_block header
    ok (record {
      current_block_identifier = block.block_identifier;
      current_block_timestamp = block.timestamp;
      genesis_block_identifier = cfg.genesis_block_identifier;
      peers = peers;
    })

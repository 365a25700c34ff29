-- ===== src/Indexer/Sync.antt =====
-- `Sync` of pkg/indexer/indexer.go. The syncer of rosetta-sdk-go and the cache of past blocks that
-- the block storage makes for it are parameters.
pub mod Starts
pub mod Tests
use rosetta_ergo.Base.{
  ℤ, negsuc, String, List, [], ◌∷◌, Result, ok, err, panics, blocks, sentinel, canceled, ◌>>=◌,
  ◌>>◌, wrap_with,
}
use rosetta_ergo.Sdk.{BlockIdentifier, NetworkIdentifier}
use rosetta_ergo.Ergo.Types.{FullBlock}
use rosetta_ergo.Ergo.Client.{Client, get_block_by_id}
use rosetta_ergo.Config.{Configuration}
use rosetta_ergo.Indexer.Storage.{Storage}
use rosetta_ergo.Indexer.Genesis.{start_index}

-- The syncer runs for ever.
abbrev pub end_index : ℤ
end_index = negsuc 0

-- One round of the loop of `waitForNode`: the node as it is then, and what the sleep returns.
pub record Poll : Type 0 where
  pub node : Client
  pub slept : Result (Unit {0})

-- The context is cancelled when the list is used up.
unfoldable pub wait_for_node : String → List Poll → Result (Unit {0})
wait_for_node genesis_hash [] = err (sentinel canceled)
wait_for_node genesis_hash (p ∷ polls) =
    let rest = wait_for_node genesis_hash polls in
    elim (get_block_by_id p.node genesis_hash) [
      | ok block ↦ ok tt
      | err e ↦ p.slept >> rest
      | panics ↦ panics
      | blocks ↦ blocks
    ]

-- `BlockStorage.Initialize`, which registers the coin and the balance storage as its workers,
-- `CreateBlockCache` with the default limit, and the run of a new syncer from and to an index.
pub record Syncer (DB : Type 0) : Type 0 where
  pub initialize : DB → DB
  pub past_blocks : DB → List BlockIdentifier
  pub sync : NetworkIdentifier → List BlockIdentifier → ℤ → ℤ → DB → Result (Unit {0}) × DB

module _ {DB : Type 0} (s : Storage DB) (syncer : Syncer DB) (cfg : Configuration) where
  -- The run of the syncer, from the index that was found.
  abbrev pub run_syncer : Result ℤ × DB → Result (Unit {0}) × DB
  run_syncer (ok start, db) = syncer.sync cfg.network (syncer.past_blocks db) start end_index db
  run_syncer (err e, db) = (err e, db)
  run_syncer (panics, db) = (panics, db)
  run_syncer (blocks, db) = (blocks, db)

  abbrev pub once_ready : Result (Unit {0}) → DB → Result (Unit {0}) × DB
  once_ready (ok ready) db = run_syncer (
      start_index s cfg.genesis_block_identifier cfg.genesis_utxos cfg.bootstrap_balances
        (syncer.initialize db))
  once_ready (err e) db = (err e, db)
  once_ready panics db = (panics, db)
  once_ready blocks db = (blocks, db)

  unfoldable pub sync : List Poll → DB → Result (Unit {0}) × DB
  unfolding wait_for_node start_index
  sync polls db =
      once_ready
        (wrap_with "%w: failed to wait for node" []
          (wait_for_node cfg.genesis_block_identifier.hash polls))
        db

-- ===== src/Indexer/Sync/Starts.antt =====
-- Where the syncer starts, and when.
use rosetta_ergo.Base.{
  String, List, [], ◌∷◌, ◌++◌, ◌≡◌, ◌∙◌, ap, ok, err, Err, inc64, All, wrap_with, wrap_with-ok,
}
use rosetta_ergo.Sdk.{BlockIdentifier}
use rosetta_ergo.Ergo.Types.{FullBlock}
use rosetta_ergo.Ergo.Client.{get_block_by_id}
use rosetta_ergo.Config.{Configuration}
use rosetta_ergo.Indexer.Storage.{Storage}
use rosetta_ergo.Indexer.Genesis.{bootstrap_genesis_state, start_index, initial_start_index}
use rosetta_ergo.Indexer.Sync.{Poll, wait_for_node, Syncer, once_ready, run_syncer, sync, end_index}

-- The node does not have the genesis block yet, and the sleep is not cancelled.
pub record IsEarly (genesis_hash : String) (p : Poll) : Type 0 where
  pub failure : Err
  pub fails : get_block_by_id p.node genesis_hash ≡ err failure
  pub sleeps : p.slept ≡ ok tt

wait_for_node-ok :
    (genesis_hash : String) (early : List Poll) (p : Poll) (later : List Poll) (block : FullBlock)
    → All (IsEarly genesis_hash) early
    → get_block_by_id p.node genesis_hash ≡ ok block
    → wait_for_node genesis_hash (early ++ p ∷ later) ≡ ok tt
unfolding wait_for_node
wait_for_node-ok genesis_hash [] p later block h ready = rw (ready, wait_for_node)
wait_for_node-ok genesis_hash (q ∷ early) p later block (h, hs) ready =
    rw (h.fails, wait_for_node)
      (rw h.sleeps (wait_for_node-ok genesis_hash early p later block hs ready))

module _ {DB : Type 0} (s : Storage DB) (syncer : Syncer DB) (cfg : Configuration) where
  from_head :
      (db : DB) (head : BlockIdentifier)
      → s.get_head_block_identifier db ≡ ok head
      → start_index s cfg.genesis_block_identifier cfg.genesis_utxos cfg.bootstrap_balances db
        ≡ (ok (inc64 head.index), db)
  unfolding start_index
  from_head db head known = rw (known, start_index)

  from_genesis :
      (db db' : DB) (e : Err)
      → s.get_head_block_identifier db ≡ err e
      → bootstrap_genesis_state s cfg.genesis_block_identifier cfg.genesis_utxos
          cfg.bootstrap_balances db
        ≡ (ok tt, db')
      → start_index s cfg.genesis_block_identifier cfg.genesis_utxos cfg.bootstrap_balances db
        ≡ (ok initial_start_index, db')
  unfolding start_index
  from_genesis db db' e unknown bootstrapped = rw (unknown, start_index) (rw bootstrapped)

  -- However often the node fails to return the genesis block, as long as the sleeps are not
  -- cancelled: once it returns the block, the workers of the storage are initialized, and the
  -- syncer runs for ever, on the past blocks of the database. It runs from the block after the head
  -- if the database has one, with the database as it was; and if it has none and the state before the genesis block is bootstrapped, from the
  -- first index, with the database that the bootstrap leaves.
  pub sync-starts :
      (early : List Poll) (p : Poll) (later : List Poll) (block : FullBlock) (db : DB)
      → All (IsEarly cfg.genesis_block_identifier.hash) early
      → get_block_by_id p.node cfg.genesis_block_identifier.hash ≡ ok block
      → ((head : BlockIdentifier)
          → s.get_head_block_identifier (syncer.initialize db) ≡ ok head
          → sync s syncer cfg (early ++ p ∷ later) db
            ≡ syncer.sync cfg.network
                (syncer.past_blocks (syncer.initialize db))
                (inc64 head.index)
                end_index
                (syncer.initialize db))
        × ((e : Err) (db' : DB)
            → s.get_head_block_identifier (syncer.initialize db) ≡ err e
            → bootstrap_genesis_state s cfg.genesis_block_identifier cfg.genesis_utxos
                cfg.bootstrap_balances
                (syncer.initialize db)
              ≡ (ok tt, db')
            → sync s syncer cfg (early ++ p ∷ later) db
              ≡ syncer.sync cfg.network (syncer.past_blocks db') initial_start_index end_index db')
  unfolding sync
  sync-starts early p later block db h ready =
      let waited : wrap_with "%w: failed to wait for node" []
            (wait_for_node cfg.genesis_block_identifier.hash (early ++ p ∷ later))
          ≡ ok tt =
        wrap_with-ok _ _ _
          (wait_for_node-ok cfg.genesis_block_identifier.hash early p later block h ready) in
      (
        λ head known.
            ap (λ r. once_ready s syncer cfg r db) waited
            ∙ ap (run_syncer s syncer cfg) (from_head (syncer.initialize db) head known),
        λ e db' unknown bootstrapped.
            ap (λ r. once_ready s syncer cfg r db) waited
            ∙ ap (run_syncer s syncer cfg)
                (from_genesis (syncer.initialize db) db' e unknown bootstrapped),
      )

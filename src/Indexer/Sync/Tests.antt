-- ===== src/Indexer/Sync/Tests.antt =====
-- A node that is early once, and then has the genesis block.
use rosetta_ergo.Base.{
  ℕ, suc, [], ◌∷◌, ok, err, Err, errorf, ◌≡◌, refl, inc64, sentinel, canceled, pos,
}
use rosetta_ergo.Sdk.{BlockIdentifier}
use rosetta_ergo.Ergo.Client.{Client, get_block_by_id}
use rosetta_ergo.Ergo.Constants.{erg_currency}
use rosetta_ergo.Config.{Configuration}
use rosetta_ergo.Indexer.Genesis.{bootstrap_genesis_state, initial_start_index}
use rosetta_ergo.Indexer.Sync.{Poll, Syncer, sync, end_index}
use rosetta_ergo.Indexer.Sync.Starts.{IsEarly, sync-starts}
use rosetta_ergo.Samples.{client, network, storage, head, full_block}

abbrev cfg : Configuration
cfg = record {
  mode = "ONLINE";
  version = "1";
  network = record { blockchain = "Ergo"; network = "mainnet" };
  currency = erg_currency;
  genesis_block_identifier = head;
  rosetta_port = pos 8080;
  node_port = pos 9053;
  indexer_path = "indexer";
  genesis_utxos = [];
  bootstrap_balances = [];
  node_config_path = "node.conf";
}

abbrev syncer : Syncer ℕ
syncer = record {
  initialize = λ db. suc db;
  past_blocks = λ db. head ∷ [];
  sync = λ id past start end db. (err (sentinel canceled), db);
}

abbrev closed_port : Client
closed_port = record client { network = record network { send = λ req. err (errorf "refused" []) } }

abbrev early : Poll
early = record { node = closed_port; slept = ok tt }

abbrev ready : Poll
ready = record { node = client; slept = ok tt }

is_early : IsEarly "h1" early
unfolding get_block_by_id
is_early = record { failure = _; fails = refl; sleeps = refl }

is_ready : get_block_by_id client "h1" ≡ ok full_block
unfolding get_block_by_id
is_ready = refl

sync-starts_example :
    ((h : BlockIdentifier)
      → storage.get_head_block_identifier 1 ≡ ok h
      → sync storage syncer cfg (early ∷ ready ∷ []) 0
        ≡ syncer.sync cfg.network (syncer.past_blocks 1) (inc64 h.index) end_index 1)
    × ((e : Err) (db' : ℕ)
        → storage.get_head_block_identifier 1 ≡ err e
        → bootstrap_genesis_state storage head [] [] 1 ≡ (ok tt, db')
        → sync storage syncer cfg (early ∷ ready ∷ []) 0
          ≡ syncer.sync cfg.network (syncer.past_blocks db') initial_start_index end_index db')
sync-starts_example =
    sync-starts storage syncer cfg (early ∷ []) ready [] full_block 0 (is_early, tt) is_ready
